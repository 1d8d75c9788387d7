-- ===== src/Session/Syncs.antt =====
-- source/shared/enil_session.c: updates and completions of the partial full syncs by several threads, one after
-- another.
use mathlib.Core.Path.{subst}
use enil.Common.{
  ℕ, Option, some, ◌≡◌, refl, sym, ap, ◌∙◌, Bool, true, false, not, ◌&&◌, List, [], ◌∷◌, Bool-cases,
  inl, inr, ◌⊎◌,
}
use enil.Common.Int.{ℤ, pos, leb_ℤ, max_ℤ, le_max_left, leb_ℤ_trans, leb_ℤ_refl}
use enil.Common.Text.{Text, text_eq, text_eq→eq}
use enil.Common.Json.{Json, Children, nil, node, is_object, child, field}
use enil.ApiJson.{enil_json_coerce_int64}
use enil.Session.{Sessions}
use enil.Session.Partial.{
  PartialStore, pending_name, completed_name, enil_session_update_partial_full_syncs,
  enil_session_complete_partial_full_syncs,
}
use enil.Session.Stamps.{coerced, PartialLaws}
use enil.Session.Maps.{saved_stamp}
use enil.Session.Queue.{asked}
use enil.Session.Acknowledge.{le_acked}
use enil.Session.Update.{TakesRequests, update_partial_full_syncs-UpdatesStamps}
use enil.Session.Acks.{AcksRequests}
use enil.Session.Complete.{complete_partial_full_syncs-CompletesStamps}

-- What is done to the session files. A snapshot may be any object, of any time.
pub data SyncOp : Type 0 where
  updates : ℕ → Text → Json → SyncOp
  completes : Text → Json → SyncOp

module _ (m : PartialStore) where
  abbrev pub sync_step : Sessions → SyncOp → Sessions
  sync_step s (updates thread path target) =
      (enil_session_update_partial_full_syncs m s thread path target).0
  sync_step s (completes path snapshot) =
      (enil_session_complete_partial_full_syncs m s path snapshot).0

  abbrev pub sync_run : Sessions → List SyncOp → Sessions
  sync_run s [] = s
  sync_run s (op ∷ ops) = sync_run (sync_step s op) ops

  -- A time is reached for a category when it is pending or completed up to there.
  abbrev pub IsReached : Sessions → Text → Text → ℤ → Type 0
  IsReached s path key v =
      (leb_ℤ v (saved_stamp m s path pending_name key) ≡ true)
      ⊎ (leb_ℤ v (saved_stamp m s path completed_name key) ≡ true)

  -- What one operation does not take back.
  abbrev pub Keeps : Text → Text → Sessions → Sessions → Type 0
  Keeps path key s s' =
      (leb_ℤ (saved_stamp m s path completed_name key) (saved_stamp m s' path completed_name key)
        ≡ true)
      × ((v : ℤ) → leb_ℤ v (pos 0) ≡ false → IsReached s path key v → IsReached s' path key v)

module _ (m : PartialStore) (laws : PartialLaws m) where
  le_asked :
      (done : Text → ℤ) (kids : Children) (key : Text) (best v : ℤ)
      → leb_ℤ v best ≡ true
      → leb_ℤ v (asked m done kids key best) ≡ true
  unfolding asked
  le_asked done nil key best v h = h
  le_asked done (node k w kids) key best v h =
      elim (Bool-cases (text_eq k key && not (leb_ℤ (coerced m (some w)) (done k)))) [
        | inr apart ↦ rw apart (le_asked done kids key best v h)
        | inl hit ↦ rw hit (
            le_asked done kids key (max_ℤ best (coerced m (some w))) v
              (leb_ℤ_trans v best _ h (le_max_left best (coerced m (some w)))))
      ]

  not_object :
      (s : Sessions) (path : Text) (snapshot : Json)
      → is_object snapshot ≡ false
      → (enil_session_complete_partial_full_syncs m s path snapshot).0 ≡ s
  unfolding enil_session_complete_partial_full_syncs
  not_object s path snapshot bad = rw bad refl

  module _ (path key : Text) (s s' : Sessions) where
    -- Both stamps are as they were.
    untouched : s'.files path ≡ s.files path → Keeps m path key s s'
    untouched e =
        let view : (name : Text) → saved_stamp m s' path name key ≡ saved_stamp m s path name key =
          λ name.
            ap
              (λ o.
                enil_json_coerce_int64 m.store.numbers
                  (field m.store.cjson (field m.store.cjson o name) key))
              e in
        (
          ap (leb_ℤ (saved_stamp m s path completed_name key)) (view completed_name)
              ∙ leb_ℤ_refl (saved_stamp m s path completed_name key),
          λ v above reached. elim reached [
            | inl p ↦ inl (ap (leb_ℤ v) (view pending_name) ∙ p)
            | inr c ↦ inr (ap (leb_ℤ v) (view completed_name) ∙ c)
          ],
        )

  taken :
      (s : Sessions) (path : Text) (kids : Children) (r : Sessions × Option Bool) (key : Text)
      → TakesRequests m s path kids r
      → Keeps m path key s r.0
  taken s path kids r key (others, pend, comp, answer) =
      let before = saved_stamp m s path completed_name key in
      (
        ap (leb_ℤ before) (comp key) ∙ leb_ℤ_refl before,
        λ v above reached. elim reached [
          | inl p ↦ inl (
              ap (leb_ℤ v) (pend key)
              ∙ le_asked (saved_stamp m s path completed_name) kids key _ v p)
          | inr c ↦ inr (ap (leb_ℤ v) (comp key) ∙ c)
        ],
      )

  update-Keeps :
      (path key : Text) (s : Sessions) (thread : ℕ) (q : Text) (target : Json)
      → Keeps m path key s (enil_session_update_partial_full_syncs m s thread q target).0
  update-Keeps path key s thread q target =
      let r = enil_session_update_partial_full_syncs m s thread q target in
      elim (update_partial_full_syncs-UpdatesStamps m laws s thread q target) [
        | inl same ↦
            untouched path key s r.0 (ap (λ (r : Sessions × Option Bool). r.0.files path) same)
        | inr takes ↦ elim (Bool-cases (text_eq path q)) [
          | inr apart ↦ untouched path key s r.0 (takes.0 path apart)
          | inl hit ↦
              subst (λ p. Keeps m p key s r.0) (sym (text_eq→eq path q hit))
                (taken s q (child target) r key takes)
        ]
      ]

  acknowledges :
      (s s' : Sessions) (path : Text) (requests : Children) (key : Text)
      → AcksRequests m s path requests s'
      → Keeps m path key s s'
  acknowledges s s' path requests key (others, comp, plain, late) =
      let before = saved_stamp m s path completed_name key in
      let later : (v : ℤ)
          → leb_ℤ v before ≡ true
          → leb_ℤ v (saved_stamp m s' path completed_name key) ≡ true =
        λ v h. ap (leb_ℤ v) (comp key) ∙ le_acked m laws requests key before v h in
      (
        later before (leb_ℤ_refl before),
        λ v above reached. elim reached [ inl p ↦ late key v above p | inr c ↦ inr (later v c) ],
      )

  complete-Keeps :
      (path key : Text) (s : Sessions) (q : Text) (snapshot : Json)
      → Keeps m path key s (enil_session_complete_partial_full_syncs m s q snapshot).0
  complete-Keeps path key s q snapshot =
      let s' = (enil_session_complete_partial_full_syncs m s q snapshot).0 in
      elim (Bool-cases (is_object snapshot)) [
        | inr bad ↦
            untouched path key s s'
              (ap (λ (r : Sessions). r.files path) (not_object s q snapshot bad))
        | inl obj ↦ elim (complete_partial_full_syncs-CompletesStamps m laws s q snapshot obj) [
          | inl same ↦ untouched path key s s' (ap (λ (r : Sessions). r.files path) same.0)
          | inr (own, acks) ↦ elim (Bool-cases (text_eq path q)) [
            | inr apart ↦ untouched path key s s' (acks.0 path apart)
            | inl hit ↦
                subst (λ p. Keeps m p key s s') (sym (text_eq→eq path q hit))
                  (acknowledges s s' q _ key acks)
          ]
        ]
      ]

  step-Keeps :
      (path key : Text) (s : Sessions) (op : SyncOp) → Keeps m path key s (sync_step m s op)
  step-Keeps path key s (updates thread q target) = update-Keeps path key s thread q target
  step-Keeps path key s (completes q snapshot) = complete-Keeps path key s q snapshot

-- With cJSON and number formats as documented: over any updates and completions by any threads,
-- with any requests, any snapshots and writes that may fail, the completed time of a category
-- never goes back, and a time above 0 that is pending or completed for it stays pending or
-- completed, so no request is forgotten.
pub sync_run-Keeps :
    (m : PartialStore) (laws : PartialLaws m) (ops : List SyncOp) (s : Sessions) (path key : Text)
    → Keeps m path key s (sync_run m s ops)
sync_run-Keeps m laws [] s path key =
    (leb_ℤ_refl (saved_stamp m s path completed_name key), λ v above h. h)
sync_run-Keeps m laws (op ∷ ops) s path key =
    let (grows, keeps) = step-Keeps m laws path key s op in
    let (grows', keeps') = sync_run-Keeps m laws ops (sync_step m s op) path key in
    (
      leb_ℤ_trans (saved_stamp m s path completed_name key)
          (saved_stamp m (sync_step m s op) path completed_name key) _ grows grows',
      λ v above h. keeps' v above (keeps v above h),
    )
