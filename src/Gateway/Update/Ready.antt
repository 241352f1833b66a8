-- ===== src/Gateway/Update/Ready.antt =====
-- When the robot is said to be ready to restart into its update, and what a restart needs.
use vic_cloudless.Prelude.{
  Bool-cases, ◌≡◌, refl, sym, ◌∙◌, inl, inr, Bool, true, false, not, ◌&&◌, ◌||◌, Option,
}
use vic_cloudless.Prelude.Int.{minus_one, ℤ, eq_ℤ}
use vic_cloudless.Prelude.Text.{contains, Text, text_eq, codes}
use vic_cloudless.Gateway.Update.{
  pos, name_unknown, forbidden, Files, Status, is_ready, is_positive, status_read,
  get_update_status, failed, failure_kind, starting, in_progress,
}

and_false : (b : Bool) → b && false ≡ false
and_false true = refl
and_false false = refl

module _ (parse_int : Text → Option ℤ) (version_in : Text → Option Text) where
  failure_kind-is_ready :
      (s : Status) → is_ready parse_int version_in (failure_kind parse_int version_in s) ≡ false
  failure_kind-is_ready s =
      elim (Bool-cases (
        text_eq s.update_phase (codes "download")
        && (text_eq s.error name_unknown
            || (eq_ℤ s.exit_code (pos 208) || eq_ℤ s.exit_code (pos 215))))) [
              | inl cut ↦ rw cut refl
              | inr other ↦ rw other refl
            ]

  failed-is_ready :
      (s : Status)
      → is_ready parse_int version_in (failed parse_int version_in s).update_status ≡ false
  failed-is_ready s = elim (Bool-cases (contains s.error forbidden)) [
    | inl f ↦ rw f refl
    | inr n ↦ rw n (failure_kind-is_ready s)
  ]

  starting-is_ready :
      (s : Status)
      → is_ready parse_int version_in s.update_status ≡ false
      → is_ready parse_int version_in (starting parse_int version_in s).update_status ≡ false
  starting-is_ready s h = elim (Bool-cases (eq_ℤ s.exit_code minus_one)) [
    | inl e ↦ rw e refl
    | inr n ↦ rw n h
  ]

  in_progress-is_ready :
      (s : Status)
      → is_ready parse_int version_in s.update_status ≡ false
      → is_ready parse_int version_in (in_progress parse_int version_in s).update_status ≡ false
  in_progress-is_ready s h = elim (Bool-cases (is_positive s.progress)) [
    | inr n ↦ rw n h
    | inl p ↦ elim (Bool-cases (text_eq s.update_phase (codes "download"))) [
      | inl d ↦ rw (p, d) refl
      | inr o ↦ rw (p, o) refl
    ]
  ]

  -- The robot is said to be ready to restart into its update exactly if the file for this is there
  -- and the exit code that is read is not over 0.
  pub get_update_status-is_ready :
      (f : Files)
      → is_ready parse_int version_in (get_update_status parse_int version_in f).update_status
        ≡ f.done && not (is_positive (status_read parse_int version_in f).exit_code)
  unfolding get_update_status
  get_update_status-is_ready f =
      let s = status_read parse_int version_in f in
      elim (Bool-cases (is_positive s.exit_code)) [
        | inl bad ↦ rw bad (failed-is_ready s ∙ sym (and_false f.done))
        | inr fine ↦ elim (Bool-cases f.done) [
          | inl there ↦ rw (fine, there) refl
          | inr missing ↦
              rw (fine, missing)
                (in_progress-is_ready (starting parse_int version_in s) (starting-is_ready s refl))
        ]
      ]
