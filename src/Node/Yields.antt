-- ===== src/Node/Yields.antt =====
-- The steps on the model of src/node.cpp after which, where they return, a resource is there.
use nmos_client.Base.{
  String, Bool, true, false, Option, some, is_some, Except, ok, err, ◌==◌, string_eq, if◌then◌else◌,
  ◌≡◌, refl, ap, Bool-cases, inl, inr, ==-refl, subst,
}
use nmos_client.Base.Exec.{Exec, ◌>>=◌, ◌>>◌}
use nmos_client.Node.Library.{Library}
use nmos_client.Node.State.{Model}
use nmos_client.Node.Steps.{
  Store, node_store, connection_store, stored, insert_resource_after, shutdown_seen, after_wait,
  store_in, throw,
}
use nmos_client.Node.Keeps.{Has, Keeps}

module _ {D : Type 0} (L : Library D) where
  -- A step that never returns.
  abbrev pub Throws : {A : Type 0} → Exec (Model L) A → Type 0
  Throws {A} f = (m m' : Model L) (a : A) → f m ≡ (ok a, m') → ⊥

  pub undo-Throws :
      (undo : Exec (Model L) (Unit {0})) (e : String) → Throws (undo >> throw L {A = Unit {0}} e)
  undo-Throws undo e m m' a h = go m (undo m) h
    where
      go :
          (m : Model L) (r : Except (Unit {0}) × Model L)
          → ◌>>◌ {A = Unit {0}} {B = Unit {0}} (λ (s : Model L). r) (throw L e) m ≡ (ok a, m')
          → ⊥
      go m (ok u, t) h = absurd (cc (ap (λ (p : Except (Unit {0}) × Model L). p.0) h))
      go m (err x, t) h = absurd (cc (ap (λ (p : Except (Unit {0}) × Model L). p.0) h))

  pub then-Throws : (f g : Exec (Model L) (Unit {0})) → Throws f → Throws (f >> g)
  then-Throws f g never m m' a h = go (f m) refl h
    where
      go :
          (r : Except (Unit {0}) × Model L)
          → f m ≡ r
          → ◌>>◌ {A = Unit {0}} {B = Unit {0}} (λ (s : Model L). r) g m ≡ (ok a, m')
          → ⊥
      go (ok u, t) e h = never m t u e
      go (err x, t) e h = absurd (cc (ap (λ (p : Except (Unit {0}) × Model L). p.0) h))

  module _ (st : Store) (j : String) where
    -- Where the step returns, a resource that was there is there still.
    pub record Preserves {A : Type 0} (f : Exec (Model L) A) : Type 0 where
      pub preserved : (m m' : Model L) (a : A) → Has L st j m → f m ≡ (ok a, m') → Has L st j m'

    pub Keeps-Preserves : {A : Type 0} (f : Exec (Model L) A) → Keeps L st j f → Preserves f
    Keeps-Preserves {A} f k = record {
      preserved =
          λ m m' a h e. subst (Has L st j) (ap (λ (p : Except A × Model L). p.1) e) (k.kept m h);
    }

    pub Throws-Preserves : {A : Type 0} (f : Exec (Model L) A) → Throws f → Preserves f
    Throws-Preserves f never = record { preserved = λ m m' a h e. absurd (never m m' a e) }

    pub >>=-Preserves :
        {A B : Type 0} (f : Exec (Model L) A) (g : A → Exec (Model L) B)
        → Preserves f
        → ((a : A) → Preserves (g a))
        → Preserves (f >>= g)
    >>=-Preserves {A} {B} f g kf kg = record { preserved = λ m m' b h e. go m m' b h (f m) refl e }
      where
        go :
            (m m' : Model L) (b : B)
            → Has L st j m
            → (r : Except A × Model L) → f m ≡ r
            → ◌>>=◌ {A = A} {B = B} (λ (s : Model L). r) g m ≡ (ok b, m')
            → Has L st j m'
        go m m' b h (ok a, t) q e = (kg a).preserved t m' b (kf.preserved m t a h q) e
        go m m' b h (err x, t) q e = absurd (cc (ap (λ (p : Except B × Model L). p.0) e))

    -- Where the step returns, the model has a resource under the id.
    pub record Yields {A : Type 0} (f : Exec (Model L) A) : Type 0 where
      pub yields : (m m' : Model L) (a : A) → f m ≡ (ok a, m') → Has L st j m'

    pub later-Yields :
        {A B : Type 0} (f : Exec (Model L) A) (g : A → Exec (Model L) B)
        → ((a : A) → Yields (g a))
        → Yields (f >>= g)
    later-Yields {A} {B} f g y = record { yields = λ m m' b h. go m m' b (f m) h }
      where
        go :
            (m m' : Model L) (b : B) (r : Except A × Model L)
            → ◌>>=◌ {A = A} {B = B} (λ (s : Model L). r) g m ≡ (ok b, m')
            → Has L st j m'
        go m m' b (ok a, t) h = (y a).yields t m' b h
        go m m' b (err e, t) h = absurd (cc (ap (λ (p : Except B × Model L). p.0) h))

    pub first-Yields :
        {A B : Type 0} (f : Exec (Model L) A) (g : A → Exec (Model L) B)
        → Yields f
        → ((a : A) → Preserves (g a))
        → Yields (f >>= g)
    first-Yields {A} {B} f g y k = record { yields = λ m m' b h. go m m' b (f m) refl h }
      where
        go :
            (m m' : Model L) (b : B) (r : Except A × Model L)
            → f m ≡ r
            → ◌>>=◌ {A = A} {B = B} (λ (s : Model L). r) g m ≡ (ok b, m')
            → Has L st j m'
        go m m' b (ok a, t) e h = (k a).preserved t m' b (y.yields m t a e) h
        go m m' b (err x, t) e h = absurd (cc (ap (λ (p : Except B × Model L). p.0) h))

    inserted :
        (b c : Bool) (x : L.Resource) (o p : Option L.Resource)
        → p ≡ (if b then (if c then some x else o) else o)
        → b ≡ true
        → c ≡ true
        → is_some p ≡ true
    inserted b c x o p e q q' = rw (e, q, q') refl

    -- An insertion after which the code goes on only where it succeeded.
    pub insert-Yields :
        (x : L.Resource) (g : Bool → Exec (Model L) (Unit {0}))
        → L.resource_id x ≡ j
        → Preserves (g true)
        → Throws (g false)
        → Yields (insert_resource_after L st x >>= g)
    unfolding insert_resource_after
    insert-Yields x g i k never = record {
      yields = λ m m' b h. elim (Bool-cases (shutdown_seen L m.waits)) [
        | inl e ↦ absurd (never (after_wait L m) m' b (rw e at h))
        | inr e ↦ go m m' b (L.insert_resource (stored L st m) x).0 refl (rw e at h)
      ];
    }
      where
        has :
            (st : Store) (m : Model L)
            → (L.insert_resource (stored L st m) x).0 ≡ true
            → Has L st j (store_in L st (L.insert_resource (stored L st m) x).1 (after_wait L m))
        has node_store m q =
            inserted (L.insert_resource m.node_resources x).0 (L.resource_id x == j) x _ _
              (L.find-insert m.node_resources x j) q (rw i (==-refl j))
        has connection_store m q =
            inserted (L.insert_resource m.connection_resources x).0 (L.resource_id x == j) x _ _
              (L.find-insert m.connection_resources x j) q (rw i (==-refl j))

        go :
            (m m' : Model L) (u : Unit {0}) (b : Bool)
            → (L.insert_resource (stored L st m) x).0 ≡ b
            → g b (store_in L st (L.insert_resource (stored L st m) x).1 (after_wait L m))
              ≡ (ok u, m')
            → Has L st j m'
        go m m' u true q h = k.preserved _ m' u (has st m q) h
        go m m' u false q h = absurd (never _ m' u h)
