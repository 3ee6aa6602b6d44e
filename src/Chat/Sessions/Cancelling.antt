-- ===== src/Chat/Sessions/Cancelling.antt =====
-- What cancelling a chat session does to staging (onto_platform/chat/orchestrator.py).
use lingyunzhi_os_backend.Base.{
  ℕ, String, ◌≡◌, refl, false, Option, none, some, ◌<>◌, ◌≢◌, ◌⊎◌, nat_eq, arith, Bool-cases, inl,
  inr, eq_refl, nat_eq_refl,
}
use mathlib.Core.Path.{◌∙◌, ap}
use lingyunzhi_os_backend.Dict.{lookup, has, insert, erase, lookup-insert, lookup-erase}
use lingyunzhi_os_backend.Registry.Store.{Registries, updated, staging, load, save}
use lingyunzhi_os_backend.Chat.Sessions.{
  Session, ChatState, Left, returns, raises, stale_staging, cancelling, active, count_active,
  is_full, create_session, is_foreign, cancel_saved, cancel_found, cancel_session,
}

nat_cases : (a b : ℕ) → (a ≡ b) ⊎ (a ≢ b)
nat_cases a b = elim (Bool-cases (nat_eq a b)) [
  | inl same ↦ inl (ground arith)
  | inr other ↦ inr (λ e. ground arith)
]

-- The state after a session has been cancelled.
abbrev pub cancelled : ℕ → String → Session → ChatState → ChatState
cancelled now session_id s st = record st {
  registries = record st.registries {
    staging_row =
        updated st.registries.staging_row now s.pre_session_registry (some "chat-cancel")
          (some ("cancel chat session " <> session_id));
  };
  sessions = erase session_id st.sessions;
}

-- The state when staging has changed under the cancel.
abbrev pub left_cancelling : String → Session → ChatState → ChatState
left_cancelling session_id s st = record st {
  sessions = insert session_id (record s { status = cancelling }) st.sessions;
}

abbrev others_wrote : (Registries → Registries) → ChatState → ChatState
others_wrote meanwhile st = record st { registries = meanwhile st.registries }

-- The row that `create_session` inserts.
abbrev created : String → ChatState → Session
created token_id st = record {
  token_id = token_id;
  status = active;
  pre_session_registry = st.registries.staging_row.payload;
  pre_session_version = st.registries.staging_row.version;
}

-- The state with that row, when the registries have become others.
abbrev later : String → String → ChatState → Registries → ChatState
later new_id token_id st between = record st {
  registries = between;
  sessions = insert new_id (created token_id st) st.sessions;
}

lookup-created :
    (new_id token_id : String) (st : ChatState)
    → lookup new_id (insert new_id (created token_id st) st.sessions) ≡ some (created token_id st)
lookup-created new_id token_id st = rw lookup-insert (rw eq_refl refl)

own_session :
    (token_id : String) (s : Session) → s.token_id ≡ token_id → is_foreign (some token_id) s ≡ false
unfolding is_foreign
own_session token_id s e = rw e (rw eq_refl refl)

module _ (now : ℕ) (meanwhile : Registries → Registries) (new_id token_id : String) (st : ChatState)
    (between : Registries) where
  -- A cancel by the session's own token, when the registries have become others.
  abbrev pub cancel_own : Left
  cancel_own =
      cancel_session now meanwhile new_id (some token_id) (later new_id token_id st between)

  cancel_own_found :
      has new_id st.running ≡ false
      → cancel_own
        ≡ cancel_saved new_id
            (created token_id st)
            (others_wrote meanwhile (later new_id token_id st between))
            (save now
              (meanwhile between)
              staging
              (created token_id st).pre_session_registry
              (some between.staging_row.version)
              (some "chat-cancel")
              (some ("cancel chat session " <> new_id)))
  unfolding cancel_session cancel_found load
  cancel_own_found idle = rw idle (
      rw (lookup-created new_id token_id st)
        (rw (own_session token_id (created token_id st) refl) refl))

  cancel_own_quiet :
      has new_id st.running ≡ false
      → (meanwhile between).staging_row.version ≡ between.staging_row.version
      → cancel_own
        ≡ returns (
            cancelled now new_id
              (created token_id st)
              (others_wrote meanwhile (later new_id token_id st between)))
  unfolding cancel_saved save
  cancel_own_quiet idle quiet = cancel_own_found idle ∙ rw quiet (simp nat_eq_refl)

  cancel_own_stale :
      has new_id st.running ≡ false
      → (meanwhile between).staging_row.version ≢ between.staging_row.version
      → cancel_own
        ≡ raises
            (left_cancelling new_id
              (created token_id st)
              (others_wrote meanwhile (later new_id token_id st between)))
            (stale_staging (record {
              env = staging;
              expected_version = between.staging_row.version;
              current_version = (meanwhile between).staging_row.version;
            }))
  unfolding cancel_saved save
  cancel_own_stale idle moved =
      cancel_own_found idle
      ∙ elim (Bool-cases
          (nat_eq (meanwhile between).staging_row.version between.staging_row.version)) [
            | inl same ↦ absurd (moved (ground arith))
            | inr other ↦ rw other refl
          ]

-- A session is created, anything is done to the registries, and then the session is cancelled by the
-- same token with no turn in flight. If staging keeps its version between the cancel's own load and
-- its save, the cancel raises nothing, staging holds the registry that it held at the creation,
-- whatever was committed since then is overwritten, and the session is gone. If staging's version
-- changes between these two, the cancel raises the stale version, the registries are as the others
-- left them, and the session stays, marked as cancelling. So the changes that are noticed are those
-- since the cancel's load, where the chat specification of 2026-04-28, the docstring of
-- `StaleStagingError` and `test_cancel_under_stale_staging_raises` speak of the changes since the
-- session was created.
pub cancel-create_session :
    (limit : Option ℕ) (now : ℕ) (meanwhile : Registries → Registries) (new_id token_id : String)
    (st : ChatState) (between : Registries)
    → is_full limit (count_active token_id st.sessions) ≡ false
    → has new_id st.running ≡ false
    → (left : Left) × (cancel_session now meanwhile new_id
          (some token_id)
          (record (create_session limit new_id token_id st).state { registries = between })
        ≡ left)
      × ((((load (meanwhile between) staging).version ≡ (load between staging).version)
            × (left.raised ≡ none)
            × ((load left.state.registries staging).registry
                ≡ (load st.registries staging).registry)
            × (lookup new_id left.state.sessions ≡ none))
          ⊎ (((load (meanwhile between) staging).version ≢ (load between staging).version)
              × (left.raised
                  ≡ some (
                      stale_staging (record {
                        env = staging;
                        expected_version = (load between staging).version;
                        current_version = (load (meanwhile between) staging).version;
                      })))
              × (left.state.registries ≡ meanwhile between)
              × (lookup new_id left.state.sessions
                  ≡ some (record {
                    token_id = token_id;
                    status = cancelling;
                    pre_session_registry = (load st.registries staging).registry;
                    pre_session_version = (load st.registries staging).version;
                  }))))
unfolding create_session load
cancel-create_session limit now meanwhile new_id token_id st between room idle = (
  cancel_own now meanwhile new_id token_id st between,
  rw room refl,
  elim (nat_cases (meanwhile between).staging_row.version between.staging_row.version) [
    | inl quiet ↦
        let e = cancel_own_quiet now meanwhile new_id token_id st between idle quiet in
        inl (
          quiet,
          ap (λ (left : Left). left.raised) e,
          ap (λ (left : Left). left.state.registries.staging_row.payload) e,
          ap (λ (left : Left). lookup new_id left.state.sessions) e
              ∙ rw lookup-erase (rw eq_refl refl),
        )
    | inr moved ↦
        let e = cancel_own_stale now meanwhile new_id token_id st between idle moved in
        inr (
          moved,
          ap (λ (left : Left). left.raised) e,
          ap (λ (left : Left). left.state.registries) e,
          ap (λ (left : Left). lookup new_id left.state.sessions) e
              ∙ rw lookup-insert (rw eq_refl refl),
        )
  ],
)
