-- ===== src/Guard/Stale.antt =====
-- A change of the archive is permanent, and it is logged one time, over every sequence of calls.
use zipfs.Base.{ℕ, suc, ◌≡◌, refl, Bool, true, false, List, [], ◌∷◌, err, arith, ap, ◌∙◌}
use zipfs.Guard.{
  Os, GuardedFile, Report, changed, stale, Metadata, new, verify, check, read_at, read_exact_at,
  stale_error,
}

-- What a client of the guard may call.
pub data Call : Type 0 where
  checks : Call
  reads reads_exactly : ℕ → ℕ → Call

abbrev pub to_nat : Bool → ℕ
to_nat true = 1
to_nat false = 0

-- How many times a change was logged.
abbrev pub change_reports : List Report → ℕ
change_reports [] = 0
change_reports (changed c ∷ log) = suc (change_reports log)
change_reports (Report.cannot_examine ∷ log) = change_reports log
change_reports (Report.examined_again ∷ log) = change_reports log

-- A change was logged once if the guard is stale, and never otherwise.
abbrev pub IsLogged : GuardedFile → Type 0
IsLogged g = change_reports g.log ≡ to_nat g.is_stale

module _ {W : Type 0} (os : Os W) where
  pub step : Call → GuardedFile × W → GuardedFile × W
  step checks (g, w) = let (_, g₁, w₁) = check os g w in (g₁, w₁)
  step (reads offset n) (g, w) = let (_, g₁, w₁) = read_at os g offset n w in (g₁, w₁)
  step (reads_exactly offset n) (g, w) = let (_, g₁, w₁) = read_exact_at os g offset n w in (g₁, w₁)

  pub run : List Call → GuardedFile × W → GuardedFile × W
  run [] s = s
  run (c ∷ cs) s = run cs (step c s)

  verify-stale :
      (g : GuardedFile) (w : W) → g.is_stale ≡ true → verify os g w ≡ (err stale_error, g, w)
  unfolding verify
  verify-stale g w h = rw h

  step-stale : (c : Call) (g : GuardedFile) (w : W) → g.is_stale ≡ true → (step c (g, w)).0 ≡ g
  unfolding step check read_at read_exact_at
  step-stale checks g w h = rw h
  step-stale (reads offset n) g w h = rw h
  step-stale (reads_exactly offset n) g w h = rw h

  run_keeps : (cs : List Call) (s : GuardedFile × W) → s.0.is_stale ≡ true → (run cs s).0 ≡ s.0
  unfolding run
  run_keeps [] s h = refl
  run_keeps (c ∷ cs) (g, w) h =
      let e = step-stale c g w h in run_keeps cs (step c (g, w)) (ap (λ x. x.is_stale) e ∙ h) ∙ e

  answers_stale :
      (g : GuardedFile) (w : W) (offset n : ℕ)
      → g.is_stale ≡ true
      → ((read_at os g offset n w).0 ≡ err stale_error)
        × ((read_exact_at os g offset n w).0 ≡ err stale_error)
        × ((check os g w).0 ≡ stale)
  unfolding read_at read_exact_at check
  answers_stale g w offset n h = (rw h, rw h, rw h)

  -- Once a change was found, no sequence of calls changes the guard, every read fails with ESTALE,
  -- and every check says that the archive is stale.
  pub run-stale :
      (cs : List Call) (s : GuardedFile × W) (offset n : ℕ)
      → s.0.is_stale ≡ true
      → let t = run cs s in
        (t.0 ≡ s.0)
        × ((read_at os t.0 offset n t.1).0 ≡ err stale_error)
        × ((read_exact_at os t.0 offset n t.1).0 ≡ err stale_error)
        × ((check os t.0 t.1).0 ≡ stale)
  run-stale cs s offset n h =
      let e = run_keeps cs s h in
      let (a, b, c) =
        answers_stale (run cs s).0 (run cs s).1 offset n (ap (λ x. x.is_stale) e ∙ h) in
      (e, a, b, c)

  verify-IsLogged : (g : GuardedFile) (w : W) → IsLogged g → IsLogged (verify os g w).1
  unfolding verify
  verify-IsLogged g w h = ground arith

  step-IsLogged : (c : Call) (g : GuardedFile) (w : W) → IsLogged g → IsLogged (step c (g, w)).0
  unfolding step check read_at read_exact_at
  step-IsLogged checks g w h = verify-IsLogged g w h
  step-IsLogged (reads offset n) g w h = verify-IsLogged g _ h
  step-IsLogged (reads_exactly offset n) g w h = verify-IsLogged g _ h

  run-IsLogged : (cs : List Call) (s : GuardedFile × W) → IsLogged s.0 → IsLogged (run cs s).0
  unfolding run
  run-IsLogged [] s h = h
  run-IsLogged (c ∷ cs) (g, w) h = run-IsLogged cs (step c (g, w)) (step-IsLogged c g w h)

  -- From the opening of the archive on, over every sequence of calls, a change is logged exactly
  -- once if the archive was found stale, and never otherwise.
  pub change_reports-run :
      (m : Metadata) (named : Bool) (cs : List Call) (w : W)
      → let g = (run cs (new m named, w)).0 in change_reports g.log ≡ to_nat g.is_stale
  unfolding new
  change_reports-run m named cs w = run-IsLogged cs (new m named, w) refl
