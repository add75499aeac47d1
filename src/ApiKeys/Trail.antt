-- ===== src/ApiKeys/Trail.antt =====
-- The audit trail of admitted requests, kept to its last entries.
use mathlib.Core.List.{append_assoc, append-nil}
use c_address_onboarding_bri.Prelude.{
  ℕ, String, Option, none, some, ◌≡◌, refl, sym, ap, ◌∙◌, subst, ◌≤◌, ◌===◌, List, [], ◌∷◌, ◌++◌,
  length, arith, Bool-cases, inl, inr,
}
use c_address_onboarding_bri.LastEntries.{last, last-last, last_all, length-last}
use c_address_onboarding_bri.JsMap
use c_address_onboarding_bri.JsText.{Text}
use c_address_onboarding_bri.ApiKeys.{
  ApiKeyRecord, AuditEntry, KeyState, Request, Refusal, Verdict, refused, admitted, client_ip,
  changed_at, add_record, revoke_api_key, update_api_key, create_api_key, resolve_record,
  refusal_of, admit, with_record, with_header, rbac_auth, seed_one, push_audit,
  max_audit_log_entries,
}
use c_address_onboarding_bri.ApiKeys.Histories.{
  Op, create, revoke, update, authenticate, seed, apply, run,
}

module _ (hash_key : String → String) (is_ip : Text → ℕ) where
  -- What a request leaves in the trail: an entry if it is admitted.
  abbrev pub entry_of : ℕ → Request → Verdict → List AuditEntry
  entry_of now req (refused why) = []
  entry_of now req (admitted id scopes) =
      record { ts = now; key_id = id; ip = client_ip req; path = req.path; method = req.method }
      ∷ []

  abbrev pub recorded : Op → KeyState → List AuditEntry
  recorded (create now hex uuid input) st = []
  recorded (revoke now id) st = []
  recorded (update now id p) st = []
  recorded (authenticate now req) st = entry_of now req (rbac_auth hash_key is_ip now req st).1
  recorded (seed now entry uuid) st = []

  abbrev pub all_recorded : List Op → KeyState → List AuditEntry
  all_recorded [] st = []
  all_recorded (op ∷ ops) st = recorded op st ++ all_recorded ops (apply hash_key is_ip op st)

  -- One step writes what it records, and keeps the last entries.
  abbrev Writes : KeyState → KeyState → List AuditEntry → Type 0
  Writes st after es = after.audit_log ≡ last 10000 (st.audit_log ++ es)

  Writes-nothing :
      (st after : KeyState)
      → length st.audit_log ≤ 10000
      → after.audit_log ≡ st.audit_log
      → Writes st after []
  Writes-nothing st after h e =
      e ∙ sym (ap (last 10000) (append-nil st.audit_log) ∙ last_all 10000 st.audit_log h)

  changed-log :
      (f : ApiKeyRecord → ApiKeyRecord) (o : Option ℕ) (st : KeyState)
      → (changed_at f o st).0.audit_log ≡ st.audit_log
  changed-log f none st = refl
  changed-log f (some r) st = refl

  seed-log :
      (now : ℕ) (entry uuid : String) (st : KeyState)
      → (seed_one hash_key is_ip now entry uuid st).audit_log ≡ st.audit_log
  unfolding seed_one add_record
  seed-log now entry uuid st = ground arith

  admit-Writes :
      (now : ℕ) (req : Request) (i : ℕ) (k : ApiKeyRecord) (o : Option Refusal) (st : KeyState)
      → length st.audit_log ≤ 10000
      → Writes st
          (admit hash_key is_ip now req i k o st).0
          (entry_of now req (admit hash_key is_ip now req i k o st).1)
  unfolding push_audit max_audit_log_entries
  admit-Writes now req i k (some why) st h = Writes-nothing st st h refl
  admit-Writes now req i k none st h = refl

  with_record-Writes :
      (now : ℕ) (req : Request) (o : Option (ℕ × ApiKeyRecord)) (st : KeyState)
      → length st.audit_log ≤ 10000
      → Writes st
          (with_record hash_key is_ip now req o st).0
          (entry_of now req (with_record hash_key is_ip now req o st).1)
  with_record-Writes now req none st h = Writes-nothing st st h refl
  with_record-Writes now req (some (i, k)) st h =
      admit-Writes now req i k (refusal_of hash_key is_ip now req k) st h

  with_header-Writes :
      (now : ℕ) (req : Request) (o : Option String) (st : KeyState)
      → length st.audit_log ≤ 10000
      → Writes st
          (with_header hash_key is_ip now req o st).0
          (entry_of now req (with_header hash_key is_ip now req o st).1)
  with_header-Writes now req none st h = Writes-nothing st st h refl
  with_header-Writes now req (some raw) st h = elim (Bool-cases (raw === "")) [
    | inl e ↦ rw e (Writes-nothing st st h refl)
    | inr e ↦ rw e (with_record-Writes now req (resolve_record hash_key is_ip raw st) st h)
  ]

  apply-Writes :
      (op : Op) (st : KeyState)
      → length st.audit_log ≤ 10000
      → Writes st (apply hash_key is_ip op st) (recorded op st)
  unfolding create_api_key add_record revoke_api_key update_api_key rbac_auth
  apply-Writes (create now hex uuid input) st h =
      Writes-nothing st (apply hash_key is_ip (create now hex uuid input) st) h refl
  apply-Writes (revoke now id) st h =
      Writes-nothing st (apply hash_key is_ip (revoke now id) st) h
        (changed-log _ (JsMap.get id st.key_store) st)
  apply-Writes (update now id p) st h =
      Writes-nothing st (apply hash_key is_ip (update now id p) st) h
        (changed-log _ (JsMap.get id st.key_store) st)
  apply-Writes (authenticate now req) st h = with_header-Writes now req req.api_key st h
  apply-Writes (seed now entry uuid) st h =
      Writes-nothing st (apply hash_key is_ip (seed now entry uuid) st) h
        (seed-log now entry uuid st)

  -- From a trail of at most 10,000 entries on, after any operations on the keys the trail is what it was
  -- with an entry for each request that was admitted since, in order, of which the last 10,000 are kept.
  pub run-trail :
      (ops : List Op) (st : KeyState)
      → length st.audit_log ≤ 10000
      → (run hash_key is_ip ops st).audit_log ≡ last 10000 (st.audit_log ++ all_recorded ops st)
  run-trail [] st h = Writes-nothing st st h refl
  run-trail (op ∷ ops) st h =
      let w = apply-Writes op st h in
      let rest = all_recorded ops (apply hash_key is_ip op st) in
      let short =
        subst (λ l. length l ≤ 10000) (sym w)
          (length-last 10000 (st.audit_log ++ recorded op st)) in
      run-trail ops (apply hash_key is_ip op st) short
      ∙ ap (λ l. last 10000 (l ++ rest)) w
      ∙ last-last 10000 (st.audit_log ++ recorded op st) rest
      ∙ ap (last 10000) (append_assoc st.audit_log (recorded op st) rest)
