-- ===== src/Node/Effect.antt =====
-- What a method of src/node.cpp does to the cached streams, and the two shapes of a method.
use nmos_client.Base.{
  String, List, Option, Except, ok, err, ◌≡◌, ◌≢◌, refl, ◌==◌, string_eq, if◌then◌else◌, All,
}
use nmos_client.Reconcile.Kind.{Kind, StreamOf, id_of, plain}
use nmos_client.Reconcile.InStep.{map_option}
use nmos_client.Node.Library.{Library}
use nmos_client.Node.State.{Cache, Model, Node, find_by_id, cached, set_cached}
use nmos_client.Node.Methods.{committed}
use nmos_client.Node.Cached.{cached-set_cached, cached-set_cached_other}
use nmos_client.Node.Named.{NamedAt, IsNamed, set_cached-IsNamed}

module _ {D : Type 0} (L : Library D) where
  -- What a node holds under an id, sender ids aside.
  abbrev pub held_in : (k : Kind) → Cache D → String → Option (StreamOf D k)
  unfolding find_by_id
  held_in k c j = map_option (plain D k) (find_by_id (id_of D k) j (cached k c))

  -- What a method does to the streams from one state: if it returns, `v` is what is held under the id
  -- `i` of the kind `k`, and else nothing has changed.
  pub record Effect (k : Kind) (i : String) (v : Option (StreamOf D k)) (n : Node L)
      (r : Except (Unit {0}) × Node L) : Type 0 where
    pub done :
        r.0 ≡ ok tt
        → (j : String) → held_in k r.1.cache j ≡ (if i == j then v else held_in k n.cache j)
    pub others : (l : Kind) → k ≢ l → (j : String) → held_in l r.1.cache j ≡ held_in l n.cache j
    pub failed :
        (e : String)
        → r.0 ≡ err e
        → (l : Kind) (j : String) → held_in l r.1.cache j ≡ held_in l n.cache j
    pub keeps : IsNamed L r.1.cache

  module _ (k : Kind) (i : String) (v : Option (StreamOf D k)) (n : Node L)
      (named : IsNamed L n.cache) where
    pub committed-Effect :
        (xs : List (StreamOf D k)) (f : Cache D → Cache D) (r : Except (Unit {0}) × Model L)
        → f n.cache ≡ set_cached k xs n.cache
        → All (NamedAt L k n.cache.seed_id) xs
        → ((j : String)
            → map_option (plain D k) (find_by_id (id_of D k) j xs)
              ≡ (if i == j then v else held_in k n.cache j))
        → Effect k i v n (committed L f n.cache r)
    unfolding find_by_id
    committed-Effect xs f (ok u, m) e p h = record {
      done = λ q j. rw (e, cached-set_cached k xs n.cache) (h j);
      others = λ l d j. rw (e, cached-set_cached_other k l xs n.cache d);
      failed = λ x q. absurd (cc q);
      keeps = rw e (set_cached-IsNamed L k xs n.cache named p);
    }
    committed-Effect xs f (err x, m) e p h = record {
      done = λ q. absurd (cc q);
      others = λ l d j. refl;
      failed = λ y q l j. refl;
      keeps = named;
    }

    pub unchanged-Effect :
        ((j : String) → held_in k n.cache j ≡ (if i == j then v else held_in k n.cache j))
        → Effect k i v n (ok tt, n)
    unchanged-Effect h = record {
      done = λ q j. h j;
      others = λ l d j. refl;
      failed = λ x q l j. refl;
      keeps = named;
    }
