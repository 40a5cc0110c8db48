-- ===== src/Tracing/Websocket/Patching.antt =====
-- `init` of packages/opentelemetry-instrumentation-ws/src/instrumentation.ts: which methods are wrapped
-- when the instrumentation is turned on and off. `F` is a method; wrapping one is the library's.
use rocket_toolkit.Prelude.{◌≡◌, refl, ap, Bool, true, false, Option, none, some, if◌then◌else◌}
use rocket_toolkit.ProcessManager.Effect.{Completion, normal, abrupt, error}

-- `isWrapped`, and `_wrap` and `_unwrap` of the instrumentation library on one method
pub record Wrapping (F : Type 0) : Type 0 where
  pub is_wrapped : F → Bool
  pub wrap : (F → F) → F → F
  pub unwrap : F → F

-- What is documented of it: a method that was wrapped is seen to be, and unwrapping brings the original
-- back.
pub record IsWrapping {F : Type 0} (w : Wrapping F) : Type 0 where
  pub wrapped : (patch : F → F) (f : F) → w.is_wrapped (w.wrap patch f) ≡ true
  pub unwrapped : (patch : F → F) (f : F) → w.unwrap (w.wrap patch f) ≡ f

-- The module `ws`, which is its class: `whole` is whether the class itself is wrapped, `constructor`,
-- `emit`, `send` and `close` belong to its prototype, and `handle_upgrade` to that of its server.
pub record Module (F : Type 0) : Type 0 where
  pub whole : Bool
  pub constructor : F
  pub emit : F
  pub send : F
  pub close : F
  pub handle_upgrade : F

-- The class that the patch gives in place of the module: it extends that class, so it has methods of its
-- own, but for those of the server, which both share.
pub record Subclass (F : Type 0) : Type 0 where
  pub class_of : F
  pub emit : F
  pub send : F
  pub close : F

-- the `_patch...` functions
pub record Patches (F : Type 0) : Type 0 where
  pub of_constructor : F → F
  pub of_emit : F → F
  pub of_send : F → F
  pub of_close : F → F
  pub of_handle_upgrade : F → F
  pub of_incoming_request_emit : F → F

module _ {F : Type 0} (w : Wrapping F) where
  -- what is wrapped already is unwrapped first; an inherited method where it is inherited from
  abbrev pub bare : F → F
  bare f = if w.is_wrapped f then w.unwrap f else f

  module _ (p : Patches F) (generate_send_spans : Bool) where
    abbrev pub subclass_of : Module F → Subclass F
    subclass_of m = record {
      class_of = w.wrap p.of_constructor (bare m.constructor);
      emit = w.wrap p.of_emit (bare m.emit);
      send = if generate_send_spans then w.wrap p.of_send (bare m.send) else m.send;
      close = w.wrap p.of_close (bare m.close);
    }

    -- the module behind the patch
    abbrev pub patched : Module F → Module F
    patched m = record {
      whole = m.whole;
      constructor = w.wrap p.of_constructor (bare m.constructor);
      emit = bare m.emit;
      send = if generate_send_spans then bare m.send else m.send;
      close = bare m.close;
      handle_upgrade = w.wrap p.of_handle_upgrade (bare m.handle_upgrade);
    }

    -- the patch of `ws`, on a module that is there; one that is missing is left as it is
    unfoldable pub patch : Module F → Completion (Subclass F × Module F)
    patch m =
        if m.whole
        then abrupt (error "Can't double wrap the ws constructor")
        else normal (subclass_of m, patched m)

  -- the function that takes the patch of `ws` back
  unfoldable pub unpatch : Module F → Module F
  unpatch m =
      if w.is_wrapped m.constructor then record m { constructor = w.unwrap m.constructor } else m

  -- the patch of the server of `http` and of that of `https`, and what takes it back
  unfoldable pub patch_server : Patches F → Option F → Option F
  patch_server p none = none
  patch_server p (some emit) = some (w.wrap p.of_incoming_request_emit emit)

  unfoldable pub unpatch_server : Option F → Option F
  unpatch_server none = none
  unpatch_server (some emit) = some (w.unwrap emit)

  -- nothing of a module is wrapped
  pub record IsBare (m : Module F) : Type 0 where
    pub whole : m.whole ≡ false
    pub constructor : w.is_wrapped m.constructor ≡ false
    pub emit : w.is_wrapped m.emit ≡ false
    pub send : w.is_wrapped m.send ≡ false
    pub close : w.is_wrapped m.close ≡ false
    pub handle_upgrade : w.is_wrapped m.handle_upgrade ≡ false

module _ {F : Type 0} (w : Wrapping F) where
  bare-unwrapped : (f : F) → w.is_wrapped f ≡ false → bare w f ≡ f
  bare-unwrapped f e = rw e refl

  bare-wrapped : IsWrapping w → (patch : F → F) (f : F) → bare w (w.wrap patch f) ≡ f
  bare-wrapped documented patch f =
      let seen = documented.wrapped patch f in rw seen (documented.unwrapped patch f)

module _ {F : Type 0} (w : Wrapping F) (p : Patches F) (generate_send_spans : Bool) where
  -- each method of the class around the one of the module
  abbrev pub patched_once : Module F → Subclass F
  patched_once m = record {
    class_of = w.wrap p.of_constructor m.constructor;
    emit = w.wrap p.of_emit m.emit;
    send = if generate_send_spans then w.wrap p.of_send m.send else m.send;
    close = w.wrap p.of_close m.close;
  }

  abbrev pub turned_off : Module F → Module F
  turned_off m = record m { handle_upgrade = w.wrap p.of_handle_upgrade m.handle_upgrade }

  abbrev pub turned_on : Module F → Module F
  turned_on m = record m {
    constructor = w.wrap p.of_constructor m.constructor;
    handle_upgrade = w.wrap p.of_handle_upgrade m.handle_upgrade;
  }

  -- a module whose server may be patched
  patch_around :
      (m : Module F) (original : F)
      → IsBare w (record m { handle_upgrade = original })
      → bare w m.handle_upgrade ≡ original
      → patch w p generate_send_spans m
        ≡ normal (
          patched_once (record m { handle_upgrade = original }),
          turned_on (record m { handle_upgrade = original }),
        )
  unfolding patch
  patch_around m original b server = let whole = b.whole in rw whole (around generate_send_spans)
    where
      around :
          (g : Bool)
          → patch w p g (record m { whole = false })
            ≡ normal (
                (
                  record {
                    class_of = w.wrap p.of_constructor m.constructor;
                    emit = w.wrap p.of_emit m.emit;
                    send = if g then w.wrap p.of_send m.send else m.send;
                    close = w.wrap p.of_close m.close;
                  },
                  record {
                    whole = false;
                    constructor = w.wrap p.of_constructor m.constructor;
                    emit = m.emit;
                    send = m.send;
                    close = m.close;
                    handle_upgrade = w.wrap p.of_handle_upgrade original;
                  },
                ))
      around true k = normal (
        record {
          class_of = w.wrap p.of_constructor (bare-unwrapped w m.constructor b.constructor k);
          emit = w.wrap p.of_emit (bare-unwrapped w m.emit b.emit k);
          send = w.wrap p.of_send (bare-unwrapped w m.send b.send k);
          close = w.wrap p.of_close (bare-unwrapped w m.close b.close k);
        },
        record {
          whole = false;
          constructor = w.wrap p.of_constructor (bare-unwrapped w m.constructor b.constructor k);
          emit = bare-unwrapped w m.emit b.emit k;
          send = bare-unwrapped w m.send b.send k;
          close = bare-unwrapped w m.close b.close k;
          handle_upgrade = w.wrap p.of_handle_upgrade (server k);
        },
      )
      around false k = normal (
        record {
          class_of = w.wrap p.of_constructor (bare-unwrapped w m.constructor b.constructor k);
          emit = w.wrap p.of_emit (bare-unwrapped w m.emit b.emit k);
          send = m.send;
          close = w.wrap p.of_close (bare-unwrapped w m.close b.close k);
        },
        record {
          whole = false;
          constructor = w.wrap p.of_constructor (bare-unwrapped w m.constructor b.constructor k);
          emit = bare-unwrapped w m.emit b.emit k;
          send = m.send;
          close = bare-unwrapped w m.close b.close k;
          handle_upgrade = w.wrap p.of_handle_upgrade (server k);
        },
      )

  -- Of a module in which nothing is wrapped: the patch gives a class with every method wrapped once; taking
  -- the patch back leaves the module as it was, but for the `handleUpgrade` of the server, which stays
  -- wrapped; and the patch after that gives what the first one gave, with nothing wrapped twice.
  pub patch-unpatch :
      IsWrapping w
      → (m : Module F) → IsBare w m
      → (patch w p generate_send_spans m ≡ normal (patched_once m, turned_on m))
        × (unpatch w (turned_on m) ≡ turned_off m)
        × (patch w p generate_send_spans (turned_off m) ≡ normal (patched_once m, turned_on m))
  unfolding unpatch
  patch-unpatch documented m b =
      let seen = documented.wrapped p.of_constructor m.constructor in
      (
        patch_around m m.handle_upgrade b (bare-unwrapped w m.handle_upgrade b.handle_upgrade),
        rw seen (
            ap
              (λ f. record m {
                constructor = f;
                handle_upgrade = w.wrap p.of_handle_upgrade m.handle_upgrade;
              })
              (documented.unwrapped p.of_constructor m.constructor)),
        patch_around (turned_off m) m.handle_upgrade b
            (bare-wrapped w documented p.of_handle_upgrade m.handle_upgrade),
      )
