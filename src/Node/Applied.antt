-- ===== src/Node/Applied.antt =====
-- The reconcile engine of src/daemon/reconcile_engine.cpp on the node of src/node.cpp: snapshots that
-- are applied one after the other, from a node without streams.
use nmos_client.Base.{
  ℕ, String, List, [], ◌∷◌, Option, none, some, ok, ◌≡◌, refl, Bool, subst, string_eq,
}
use nmos_client.Base.Exec.{Exec, pure, ◌>>◌, >>-ok, pure-ok}
use nmos_client.Base.Map.{find, emplace_all}
use nmos_client.Dto.Types.{SnapshotDto}
use nmos_client.Reconcile.Kind.{
  Kind, StreamOf, id_of, streams, equivalent, video_receiver, audio_receiver, ancillary_receiver,
  video_sender, audio_sender, ancillary_sender,
}
use nmos_client.Reconcile.Runtime.{NodeOps, IsRuntime}
use nmos_client.Reconcile.Engine.{Order, make_map, value_or_empty, apply_snapshot}
use nmos_client.Reconcile.Lists.{IsOrder}
use nmos_client.Reconcile.Matches.{Matches, IsEquality, apply_snapshot-Matches}
use nmos_client.Node.Library.{Library}
use nmos_client.Node.State.{cached, find_by_id}
use nmos_client.Node.Named.{IsInjective}
use nmos_client.Node.Runtime.{NamedNode, node_ops, node_ops-IsRuntime, view}

module _ {D : Type 0} where
  abbrev pub last_of : Option (SnapshotDto D) → List (SnapshotDto D) → Option (SnapshotDto D)
  last_of current [] = current
  last_of current (next ∷ rest) = last_of (some next) rest

  abbrev pub in_map : Option (SnapshotDto D) → (k : Kind) → String → Option (StreamOf D k)
  in_map snapshot k j = find j (make_map (id_of D k) (streams D k (value_or_empty snapshot)))

  module _ (double_eq : D → D → Bool) (arrange : (k : Kind) → Order (StreamOf D k)) where
    -- The snapshots in turn, each with the one before it as the current one.
    unfoldable pub apply_all :
        {S : Type 0}
        → NodeOps D S
        → Option (SnapshotDto D)
        → List (SnapshotDto D)
        → Exec S (Unit {0})
    unfolding apply_snapshot
    apply_all node current [] = pure tt
    apply_all node current (next ∷ rest) =
        apply_snapshot double_eq node arrange current next >> apply_all node (some next) rest

module _ (D : Type 0) where
  empty_map : (k : Kind) (j : String) → in_map {D = D} none k j ≡ none
  unfolding find make_map emplace_all
  empty_map video_receiver j = refl
  empty_map audio_receiver j = refl
  empty_map ancillary_receiver j = refl
  empty_map video_sender j = refl
  empty_map audio_sender j = refl
  empty_map ancillary_sender j = refl

module _ {D : Type 0} (double_eq : D → D → Bool) (equality : IsEquality double_eq)
    (arrange : (k : Kind) → Order (StreamOf D k)) (orders : (k : Kind) → IsOrder (arrange k)) where
  apply_all-Matches :
      {S : Type 0} (node : NodeOps D S) (seen : (k : Kind) → S → String → Option (StreamOf D k))
      (runtime : IsRuntime node seen) (current : Option (SnapshotDto D))
      (snapshots : List (SnapshotDto D)) (s s' : S)
      → apply_all double_eq arrange node current snapshots s ≡ (ok tt, s')
      → (k : Kind) (j : String)
      → Matches (equivalent D double_eq k) (seen k s j) (in_map current k j)
      → Matches (equivalent D double_eq k) (seen k s' j) (in_map (last_of current snapshots) k j)
  unfolding apply_all
  apply_all-Matches node seen runtime current [] s s' h k j m =
      subst (λ t. Matches (equivalent D double_eq k) (seen k t j) (in_map current k j))
        (pure-ok s s' h) m
  apply_all-Matches node seen runtime current (next ∷ rest) s s' h k j m =
      let (t, first, later) =
        >>-ok (apply_snapshot double_eq node arrange current next)
          (apply_all double_eq arrange node (some next) rest) s s' h in
      apply_all-Matches node seen runtime (some next) rest t s' later k j (
        apply_snapshot-Matches double_eq equality node arrange orders seen runtime current next s t
          first k j m)

  module _ (L : Library D) (bytes : String → List ℕ) (injective : IsInjective L) where
    -- Where snapshots are applied in turn on a node that holds no stream, with the ids that nmos-cpp
    -- makes from one seed different for different texts, `==` on doubles an equality and maps walked
    -- once in some order, and all of them are applied without an exception, the lists of the node
    -- hold under each kind and id what the map of the last snapshot has there, up to `equivalent`.
    pub apply_all-node :
        (snapshots : List (SnapshotDto D)) (s s' : NamedNode L)
        → ((k : Kind) → cached k s.0.cache ≡ [])
        → apply_all double_eq arrange (node_ops L bytes injective) none snapshots s ≡ (ok tt, s')
        → (k : Kind) (j : String)
        → Matches (equivalent D double_eq k) (view L k s' j) (in_map (last_of none snapshots) k j)
    unfolding find_by_id
    apply_all-node snapshots s s' empty h k j =
        apply_all-Matches (node_ops L bytes injective) (view L)
          (node_ops-IsRuntime L bytes injective) none snapshots s s' h k j (nothing k (empty k))
      where
        nothing :
            (k : Kind)
            → cached k s.0.cache ≡ []
            → Matches (equivalent D double_eq k) (view L k s j) (in_map none k j)
        nothing k e = rw (e, empty_map D k j) tt
