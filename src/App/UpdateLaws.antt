-- ===== src/App/UpdateLaws.antt =====
-- What `App::update_node_config` of src/daemon/app.cpp leaves as the persisted settings.
use nmos_client.Base.{
  sym, subst, ℕ, String, Bool, not, ◌&&◌, Except, ok, err, ◌≡◌, refl, ap, ◌∙◌, ◌⊎◌, inl, inr, ℤ,
  Bool-cases, leb_ℤ,
}
use nmos_client.Base.Exec.{Exec, ◌>>◌}
use nmos_client.Json.Tree.{Tree, tree_json}
use nmos_client.App.State.{App, is_connected, with_store}
use nmos_client.App.Store.{clear_last_snapshot, set_registry_status, no_registration}
use nmos_client.App.Handlers.{
  restart_node_runtime, on_runtime, set_node_state, schedule_sync, reconnect_revision,
  needs_resync_without_newer_revision,
}
use nmos_client.App.Config.{UriParser, selected_registry_summary}
use nmos_client.App.Update.{
  patched, is_object, next_settings, restart, summarised, restarted, prepared, update_node_config,
}

module _ {S : Type 0} where
  set_node_state-runtime :
      (s : String) (a : App tree_json S) → (set_node_state s a).node_runtime ≡ a.node_runtime
  unfolding set_node_state
  set_node_state-runtime s a = elim (Bool-cases (is_connected a.ws_client)) [
    | inl e ↦ rw e refl
    | inr e ↦ rw e refl
  ]

  schedule_sync-runtime :
      (now : ℕ) (r : ℤ) (a : App tree_json S)
      → (schedule_sync now r a).node_runtime ≡ a.node_runtime
  unfolding schedule_sync
  schedule_sync-runtime now r a =
      elim (Bool-cases (
        not a.force_sync_pending
        && (leb_ℤ r a.state_store.status.last_applied_revision
            && not (needs_resync_without_newer_revision a)))) [
              | inl e ↦ rw e refl
              | inr e ↦ rw e refl
            ]

  -- The daemon between the start of the node and the report of it.
  launched : (S → S) → (S → Bool × S) → App tree_json S → App tree_json S
  launched stop start a =
      let b = set_node_state "restarting" a in
      let d =
        with_store (λ s. clear_last_snapshot (set_registry_status no_registration s))
          (record b { node_runtime = stop b.node_runtime }) in
      record d { node_runtime = (start d.node_runtime).1 }

  -- What the runtime is after a restart, whether or not it started.
  restart-runtime :
      (stop : S → S) (start : S → Bool × S) (now : ℕ) (a : App tree_json S)
      → (restart_node_runtime stop start now a).1.node_runtime ≡ (start (stop a.node_runtime)).1
  unfolding restart_node_runtime launched
  restart-runtime stop start now a =
      let e = launched stop start a in
      let f = set_node_state "running" e in
      elim (Bool-cases (start (stop (set_node_state "restarting" a).node_runtime)).0) [
        | inl q ↦ rw q (
            schedule_sync-runtime now (reconnect_revision f) f
            ∙ (set_node_state-runtime "running" e ∙ same))
        | inr q ↦ rw q (set_node_state-runtime "stopped" e ∙ same)
      ]
    where
      same :
          (start (stop (set_node_state "restarting" a).node_runtime)).1
          ≡ (start (stop a.node_runtime)).1
      same = ap (λ r. (start (stop r)).1) (set_node_state-runtime "restarting" a)

module _ {S : Type 0} (persisted : S → Except Tree) (effective : S → Tree)
    (write : Tree → Exec S (Unit {0})) (stop : S → S) (start : S → Bool × S) where
  -- Settings that were written without an exception are what is read then; a stop and a start keep
  -- what is read.
  pub record KeepsSettings : Type 0 where
    pub write_persists : (v : Tree) (s : S) → (write v s).0 ≡ ok tt → persisted (write v s).1 ≡ ok v
    pub stop_keeps : (s : S) → persisted (stop s) ≡ persisted s
    pub start_keeps : (s : S) → persisted (start s).1 ≡ persisted s

  module _ (keeps : KeepsSettings) where
    restart-persisted :
        (now : ℕ) (a : App tree_json S)
        → persisted (restart persisted effective write stop start now a).1.node_runtime
          ≡ persisted a.node_runtime
    unfolding restart_node_runtime
    restart-persisted now a =
        ap persisted (restart-runtime stop start now a)
        ∙ (keeps.start_keeps (stop a.node_runtime) ∙ keeps.stop_keeps a.node_runtime)

    -- After the way back, the previous settings are read, or their writing threw.
    rollback-persisted :
        (back : ℕ) (previous : Tree) (a : App tree_json S)
        → (persisted
              ((on_runtime (write previous) >> restart persisted effective write stop start back)
                a).1.node_runtime
            ≡ ok previous)
          ⊎ ((e : String) × ((write previous a.node_runtime).0 ≡ err e))
    unfolding restart_node_runtime
    rollback-persisted back previous a = go (write previous a.node_runtime) refl
      where
        go :
            (r : Except (Unit {0}) × S)
            → write previous a.node_runtime ≡ r
            → (persisted
                  ((on_runtime (write previous)
                      >> restart persisted effective write stop start back)
                    a).1.node_runtime
                ≡ ok previous)
              ⊎ ((e : String) × ((write previous a.node_runtime).0 ≡ err e))
        go (ok u, t) q =
            let r = record a { node_runtime = t } in
            inl (
              rw q (
                restart-persisted back r
                ∙ subst (λ (p : Except (Unit {0}) × S). p.0 ≡ ok tt → persisted p.1 ≡ ok previous) q
                    (keeps.write_persists previous a.node_runtime) refl))
        go (err e, t) q = inr (e, ap (λ (p : Except (Unit {0}) × S). p.0) q)

    module _ (P : UriParser) (patch : Tree) (replace_entire_document : Bool)
        (a : App tree_json S) where
      -- The settings that the patch asks for are the persisted ones.
      abbrev pub IsCommitted : Tree → App tree_json S → Type 0
      IsCommitted next b =
          ((previous : Tree) × (persisted a.node_runtime ≡ ok previous)
            × (next_settings P previous patch replace_entire_document ≡ ok next))
          × (persisted b.node_runtime ≡ ok next)

      -- A writing threw: that of the new settings, and then this is the exception, or, on a runtime
      -- that had the new ones, the one that puts the previous settings back.
      abbrev pub WriteFailed : String → Type 0
      WriteFailed e =
          (previous : Tree) × (persisted a.node_runtime ≡ ok previous)
          × (next : Tree) × (next_settings P previous patch replace_entire_document ≡ ok next)
          × (((write next a.node_runtime).0 ≡ err e)
              ⊎ ((s : S) × (e' : String) × (persisted s ≡ ok next)
                  × ((write previous s).0 ≡ err e')))

      abbrev pub Outcome : Except Tree × App tree_json S → Type 0
      Outcome (ok answer, b) = (next : Tree) × IsCommitted next b
      Outcome (err e, b) =
          (persisted b.node_runtime ≡ persisted a.node_runtime)
          ⊎ (((next : Tree) × IsCommitted next b × (selected_registry_summary next ≡ err e))
              ⊎ WriteFailed e)

      module _ (now back : ℕ) where
        summarised-Outcome :
            (next : Tree) (b : App tree_json S) (r : Except Tree)
            → IsCommitted next b
            → selected_registry_summary next ≡ r
            → Outcome (summarised persisted effective write stop start next r b)
        summarised-Outcome next b (ok t) c q = (next, c)
        summarised-Outcome next b (err e) c q = inr (inl (next, c, q))

        restarted-Outcome :
            (previous next : Tree) (r : Except (Unit {0}) × App tree_json S)
            → persisted a.node_runtime ≡ ok previous
            → next_settings P previous patch replace_entire_document ≡ ok next
            → persisted r.1.node_runtime ≡ ok next
            → Outcome (restarted persisted effective write stop start back previous next r)
        unfolding restart_node_runtime selected_registry_summary
        restarted-Outcome previous next (ok u, b) p n c =
            summarised-Outcome next b (selected_registry_summary next) ((previous, p, n), c) refl
        restarted-Outcome previous next (err e, b) p n c =
            elim (rollback-persisted back previous b) [
              | inl q ↦ inl (q ∙ sym p)
              | inr (e', q) ↦ inr (inr (previous, p, next, n, inr (b.node_runtime, e', c, q)))
            ]

        prepared-Outcome :
            (previous : Tree) (r : Except Tree)
            → persisted a.node_runtime ≡ ok previous
            → next_settings P previous patch replace_entire_document ≡ r
            → Outcome (prepared persisted effective write stop start now back previous r a)
        unfolding restart_node_runtime selected_registry_summary
        prepared-Outcome previous (err e) p q = inl refl
        prepared-Outcome previous (ok next) p q = go (write next a.node_runtime) refl
          where
            go :
                (r : Except (Unit {0}) × S)
                → write next a.node_runtime ≡ r
                → Outcome
                    (prepared persisted effective write stop start now back previous (ok next) a)
            go (ok u, t) w =
                let b = record a { node_runtime = t } in
                rw w (
                  restarted-Outcome previous next
                    (restart persisted effective write stop start now b) p q
                    (restart-persisted now b
                      ∙ subst (λ (p : Except (Unit {0}) × S). p.0 ≡ ok tt → persisted p.1 ≡ ok next)
                          w (keeps.write_persists next a.node_runtime) refl))
            go (err e, t) w =
                rw w (
                  inr (inr (previous, p, next, q, inl (ap (λ (p : Except (Unit {0}) × S). p.0) w))))

        patched-Outcome :
            (r : Except Tree)
            → persisted a.node_runtime ≡ r
            → Outcome (
                patched persisted effective write stop start P now back patch
                  replace_entire_document r a)
        unfolding next_settings restart_node_runtime selected_registry_summary
        patched-Outcome (err e) p = inl refl
        patched-Outcome (ok previous) p =
            prepared-Outcome previous (next_settings P previous patch replace_entire_document) p
              refl

        -- Where settings that were written are read back and a stop and a start keep them: if
        -- `update_node_config` returns, the settings that the patch asks for are persisted. If it
        -- throws, what is read is what was read before, except where the new settings are persisted
        -- and only their summary for the answer throws, or where the writing of the new settings
        -- throws, or that of the previous ones on the way back.
        pub update_node_config-Outcome : Outcome (
            update_node_config persisted effective write stop start P now back patch
              replace_entire_document a)
        unfolding update_node_config
        update_node_config-Outcome = elim (Bool-cases (is_object patch)) [
          | inl e ↦ rw e (patched-Outcome (persisted a.node_runtime) refl)
          | inr e ↦ rw e (inl refl)
        ]
