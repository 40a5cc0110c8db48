-- ===== src/ProcessManager/Effect/Pool.antt =====
-- Any number of effects that run at once over one world: the event loop takes a chunk of one of them
-- at a time, in any order, and new effects may begin at any moment.
use mathlib.Core.Path.{subst}
use rocket_toolkit.Prelude.{◌≡◌, sym, true, Bool, List, [], ◌∷◌, ◌++◌}
use rocket_toolkit.ProcessManager.Effect.{
  Effect, Error, pure, throw, chunk, bind, catch_error, Completion, normal, abrupt, of_completion,
}

pub record System (W : Type 0) : Type 0 where
  pub world : W
  pub tasks : List (Effect W (Unit {0}))

module _ {W : Type 0} (Allowed : Effect W (Unit {0}) → Type 0) where
  pub data Step (s t : System W) : Type 0 where
    take :
        (before : List (Effect W (Unit {0}))) (ready : W → Bool) (update : W → W)
        (next : W → Effect W (Unit {0})) (after : List (Effect W (Unit {0})))
        → s.tasks ≡ before ++ chunk ready update next ∷ after
        → ready s.world ≡ true
        → t ≡ record { world = update s.world; tasks = before ++ next s.world ∷ after }
        → Step s t
    begin :
        (e : Effect W (Unit {0}))
        → Allowed e
        → t ≡ record { world = s.world; tasks = e ∷ s.tasks }
        → Step s t

  pub data Reach (s : System W) : System W → Type 0 where
    here : Reach s s
    later : {t u : System W} → Reach s t → Step t u → Reach s u

-- An invariant of the world, and how the world may change between two looks at it.
pub record Growth (W : Type 0) : Type 1 where
  pub Inv : W → Type 0
  pub Grows : W → W → Type 0
  pub grows_refl : (w : W) → Grows w w
  pub grows_trans : (u v w : W) → Grows u v → Grows v w → Grows u w

module _ {W : Type 0} (g : Growth W) where
  -- From a world that has grown out of `seen`, whatever the others do meanwhile, each chunk of the
  -- effect keeps the invariant and lets the world grow.
  abbrev pub Keeps : {A : Type 0} → Effect W A → W → Type 0
  Keeps (pure a) seen = Unit
  Keeps (throw x) seen = Unit
  Keeps (chunk ready update next) seen =
      (w : W)
      → g.Inv w
      → g.Grows seen w
      → ready w ≡ true
      → g.Inv (update w) × g.Grows w (update w) × Keeps (next w) (update w)

  pub Keeps-grows : {A : Type 0} (e : Effect W A) (u v : W) → g.Grows u v → Keeps e u → Keeps e v
  Keeps-grows (pure a) u v h k = tt
  Keeps-grows (throw x) u v h k = tt
  Keeps-grows (chunk ready update next) u v h k =
      λ w inv grown r. k w inv (g.grows_trans u v w h grown) r

  pub Keeps-bind :
      {A B : Type 0} (e : Effect W A) (f : A → Effect W B) (u : W)
      → Keeps e u
      → ((a : A) (v : W) → g.Grows u v → Keeps (f a) v)
      → Keeps (bind e f) u
  unfolding bind
  Keeps-bind (pure a) f u k kf = kf a u (g.grows_refl u)
  Keeps-bind (throw x) f u k kf = tt
  Keeps-bind (chunk ready update next) f u k kf = λ w inv grown r.
      let (inv', grown', rest) = k w inv grown r in
      let since = g.grows_trans u w (update w) grown grown' in
      (
        inv',
        grown',
        Keeps-bind (next w) f (update w) rest
            (λ a v h. kf a v (g.grows_trans u (update w) v since h)),
      )

  pub Keeps-catch_error :
      {A : Type 0} (e : Effect W A) (f : Error → Effect W A) (u : W)
      → Keeps e u
      → ((x : Error) (v : W) → g.Grows u v → Keeps (f x) v)
      → Keeps (catch_error e f) u
  unfolding catch_error
  Keeps-catch_error (pure a) f u k kf = tt
  Keeps-catch_error (throw x) f u k kf = kf x u (g.grows_refl u)
  Keeps-catch_error (chunk ready update next) f u k kf = λ w inv grown r.
      let (inv', grown', rest) = k w inv grown r in
      let since = g.grows_trans u w (update w) grown grown' in
      (
        inv',
        grown',
        Keeps-catch_error (next w) f (update w) rest
            (λ x v h. kf x v (g.grows_trans u (update w) v since h)),
      )

  pub Keeps-of_completion : {A : Type 0} (c : Completion A) (u : W) → Keeps (of_completion c) u
  Keeps-of_completion (normal a) u = tt
  Keeps-of_completion (abrupt x) u = tt

  abbrev pub AllKeep : List (Effect W (Unit {0})) → W → Type 0
  AllKeep [] w = Unit
  AllKeep (e ∷ tasks) w = Keeps e w × AllKeep tasks w

  AllKeep-grows :
      (tasks : List (Effect W (Unit {0}))) (u v : W)
      → g.Grows u v
      → AllKeep tasks u
      → AllKeep tasks v
  AllKeep-grows [] u v h k = tt
  AllKeep-grows (e ∷ tasks) u v h (k, ks) = (Keeps-grows e u v h k, AllKeep-grows tasks u v h ks)

  AllKeep-split :
      (before : List (Effect W (Unit {0}))) (e : Effect W (Unit {0}))
      (after : List (Effect W (Unit {0}))) (w : W)
      → AllKeep (before ++ e ∷ after) w
      → AllKeep before w × Keeps e w × AllKeep after w
  AllKeep-split [] e after w (k, ks) = (tt, k, ks)
  AllKeep-split (d ∷ before) e after w (k, ks) =
      let (kb, ke, ka) = AllKeep-split before e after w ks in ((k, kb), ke, ka)

  AllKeep-join :
      (before : List (Effect W (Unit {0}))) (e : Effect W (Unit {0}))
      (after : List (Effect W (Unit {0}))) (w : W)
      → AllKeep before w
      → Keeps e w
      → AllKeep after w
      → AllKeep (before ++ e ∷ after) w
  AllKeep-join [] e after w kb ke ka = (ke, ka)
  AllKeep-join (d ∷ before) e after w (k, kb) ke ka = (k, AllKeep-join before e after w kb ke ka)

  pub record IsSound (s : System W) : Type 0 where
    pub inv : g.Inv s.world
    pub keep : AllKeep s.tasks s.world

  module _ (Allowed : Effect W (Unit {0}) → Type 0)
      (allowed_keep : (e : Effect W (Unit {0})) → Allowed e → (w : W) → Keeps e w) where
    Step-IsSound :
        {s t : System W} → Step Allowed s t → IsSound s → IsSound t × g.Grows s.world t.world
    Step-IsSound {s} (take before ready update next after e r et) h =
        let (kb, k, ka) =
          AllKeep-split before (chunk ready update next) after s.world
            (subst (λ tasks. AllKeep tasks s.world) e h.keep) in
        let (inv, grown, rest) = k s.world h.inv (g.grows_refl s.world) r in
        let w : W = update s.world in
        subst (λ t. IsSound t × g.Grows s.world t.world) (sym et)
          (
            record {
              inv = inv;
              keep =
                  AllKeep-join before (next s.world) after w
                    (AllKeep-grows before s.world w grown kb) rest
                    (AllKeep-grows after s.world w grown ka);
            },
            grown,
          )
    Step-IsSound {s} (begin e a et) h =
        subst (λ t. IsSound t × g.Grows s.world t.world) (sym et)
          (record { inv = h.inv; keep = (allowed_keep e a s.world, h.keep) }, g.grows_refl s.world)

    -- The invariant holds in every system that is reached, and the world has only grown.
    pub Reach-IsSound :
        {s t : System W} → Reach Allowed s t → IsSound s → IsSound t × g.Grows s.world t.world
    Reach-IsSound {s} here h = (h, g.grows_refl s.world)
    Reach-IsSound {s} (later {t = u} {u = t} r st) h =
        let (mid, grown) = Reach-IsSound r h in
        let (end, more) = Step-IsSound st mid in
        (end, g.grows_trans s.world u.world t.world grown more)
