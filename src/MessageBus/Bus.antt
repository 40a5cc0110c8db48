-- ===== src/MessageBus/Bus.antt =====
-- packages/message-bus/src/messageBus.ts: `publish` and `subscribe`, over a transport and a
-- serializer that are parameters. An async function is the tree of its synchronous chunks. Writing
-- to the console is left out.
use Prim.Native.String.{◌++◌ as concat}
use rocket_toolkit.Prelude.{String, ◌≡◌, refl, ap, ◌∙◌, Option}
use rocket_toolkit.ProcessManager.Effect
use rocket_toolkit.ProcessManager.Effect.{Effect, Error, concurrency_error, error, throw}
use rocket_toolkit.ProcessManager.Effect.Run.{
  Outcome, returned, threw, blocked, execute, continue, handle, execute-bind, execute-catch_error,
}
use rocket_toolkit.MessageBus.Envelope.{Context, Headers, Envelope, envelope, get_full_topic_name}

pub data SubscriptionOptions : Type 0 where
  stream_processor : SubscriptionOptions
  pub_sub : SubscriptionOptions
  rpc : SubscriptionOptions

-- `T` is what is sent, `Sub` a subscription.
pub record Transport (W T Sub : Type 0) : Type 0 where
  pub connect : Effect W (Unit {0})
  pub disconnect : Effect W (Unit {0})
  pub publish : String → Envelope T → Effect W (Unit {0})
  pub subscribe : String → (Envelope T → Effect W (Unit {0})) → SubscriptionOptions → Effect W Sub

-- `show_error` is the text of an error in a template string.
abbrev pub publish_failed : {W A : Type 0} → (Error → String) → Error → Effect W A
publish_failed show_error err = throw (
    error
      (concat "Message publishing failed! The following error was encountered: " (show_error err)))

module _ {W T Sub : Type 0} (transport : Transport W T Sub) (env prefix source : Option String)
    (v4 : String) (show_error : Error → String) where
  unfoldable pub publish :
      String → T → Option Context → Option (Headers → Headers) → Effect W (Envelope T)
  unfolding envelope
  publish topic msg ctx envelope_customizer =
      let enveloped_msg = envelope source v4 msg ctx envelope_customizer in
      Effect.catch_error
        (Effect.bind (transport.publish (get_full_topic_name env prefix topic) enveloped_msg)
          (λ _. Effect.pure enveloped_msg))
        (publish_failed show_error)

  unfoldable pub subscribe :
      String → (Envelope T → Effect W (Unit {0})) → SubscriptionOptions → Effect W Sub
  subscribe topic handler opts =
      transport.subscribe (get_full_topic_name env prefix topic) (λ e. handler e) opts

  abbrev sent : Envelope T → Outcome (Unit {0}) × W → Outcome (Envelope T) × W
  sent enveloped (returned u, w) = (returned enveloped, w)
  sent enveloped (threw err, w) = (
    threw (
        error (
          concat "Message publishing failed! The following error was encountered: "
            (show_error err))),
    w,
  )
  sent enveloped (blocked, w) = (blocked, w)

  sent-handle :
      (enveloped : Envelope T) (o : Outcome (Unit {0}) × W)
      → handle (publish_failed show_error) (continue (λ _. Effect.pure enveloped) o)
        ≡ sent enveloped o
  unfolding execute
  sent-handle enveloped (returned u, w) = refl
  sent-handle enveloped (threw err, w) = refl
  sent-handle enveloped (blocked, w) = refl

  -- Publishing sends one envelope to the full name of the topic, and gives back that envelope; what
  -- the transport throws is thrown on, with the same world, in an error that quotes it.
  pub execute-publish :
      (topic : String) (msg : T) (ctx : Option Context) (customizer : Option (Headers → Headers))
      (w : W)
      → execute (publish topic msg ctx customizer) w
        ≡ sent (envelope source v4 msg ctx customizer) (
            execute
              (transport.publish
                (get_full_topic_name env prefix topic)
                (envelope source v4 msg ctx customizer))
              w)
  unfolding publish
  execute-publish topic msg ctx customizer w =
      let enveloped = envelope source v4 msg ctx customizer in
      let sending = transport.publish (get_full_topic_name env prefix topic) enveloped in
      execute-catch_error (Effect.bind sending (λ _. Effect.pure enveloped))
        (publish_failed show_error) w
      ∙ (ap (handle (publish_failed show_error)) (execute-bind sending _ w)
          ∙ sent-handle enveloped (execute sending w))
