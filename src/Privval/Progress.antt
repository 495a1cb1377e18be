-- ===== src/Privval/Progress.antt =====
-- privval/file.go: what a call that may sign returns.
use totally_not_a_fork_of_ce.Prelude.{
  ℕ, ◌<◌, ◌≡◌, refl, sym, inl, inr, Bool, true, false, Option, none, some, ltb, ◌==◌, arith,
}
use totally_not_a_fork_of_ce.Prelude.Bytes.{Bytes, bytes_equal_iff}
use totally_not_a_fork_of_ce.Prelude.Int.{ℤ, ltb_ℤ, ◌==ℤ◌, ◌<ℤ◌}
use totally_not_a_fork_of_ce.Prelude.Outcome.{done}
use totally_not_a_fork_of_ce.Privval.{
  LastSignState, FilePv, same, fresh, check_bytes, check_hrs, Kind, save_signed, sign_again,
  sign_new, sign_checked, sign_message, Signed,
}
use totally_not_a_fork_of_ce.Privval.Signing.{Before, At, move}

abbrev pub moved : ℤ → ℤ → ℕ → Bytes → Bytes → LastSignState
moved height round step bz sig = record {
  height = height;
  round = round;
  step = step;
  signature = some sig;
  sign_bytes = some bz;
}

less_tests : (a b : ℤ) → a <ℤ b → (ltb_ℤ b a ≡ false) × ((a ==ℤ b) ≡ false)
less_tests a b h = (ground arith, ground arith)

same_tests : (a b : ℤ) → a ≡ b → (ltb_ℤ b a ≡ false) × ((a ==ℤ b) ≡ true)
same_tests a b h = (ground arith, ground arith)

less_steps : (a b : ℕ) → a < b → (ltb b a ≡ false) × ((a == b) ≡ false)
less_steps a b h = (ground arith, ground arith)

same_steps : (a b : ℕ) → a ≡ b → (ltb b a ≡ false) × ((a == b) ≡ true)
same_steps a b h = (ground arith, ground arith)

check_hrs_fresh :
    (lss : LastSignState) (height round : ℤ) (step : ℕ)
    → Before lss (record lss { height = height; round = round; step = step })
    → check_hrs lss height round step ≡ done fresh
unfolding check_hrs
check_hrs_fresh lss height round step (inl h) =
    rw ((less_tests lss.height height h).0, (less_tests lss.height height h).1) refl
check_hrs_fresh lss height round step (inr (h, inl r)) =
    rw
      (
        (same_tests lss.height height h).0,
        (same_tests lss.height height h).1,
        (less_tests lss.round round r).0,
        (less_tests lss.round round r).1,
      )
      refl
check_hrs_fresh lss height round step (inr (h, inr (r, s))) =
    rw
      (
        (same_tests lss.height height h).0,
        (same_tests lss.height height h).1,
        (same_tests lss.round round r).0,
        (same_tests lss.round round r).1,
      )
      (rw ((less_steps lss.step step s).0, (less_steps lss.step step s).1) refl)

check_hrs_same :
    (lss : LastSignState) (height round : ℤ) (step : ℕ) (bz sig : Bytes)
    → At lss height round step
    → lss.sign_bytes ≡ some bz
    → lss.signature ≡ some sig
    → check_hrs lss height round step ≡ done same
unfolding check_hrs
check_hrs_same lss height round step bz sig (h, r, s) e e' =
    rw
      (
        (same_tests lss.height height h).0,
        (same_tests lss.height height h).1,
        (same_tests lss.round round r).0,
        (same_tests lss.round round r).1,
      )
      (rw ((same_steps lss.step step s).0, (same_steps lss.step step s).1)
        (move (λ o. check_bytes o lss.signature ≡ done same) (sym e)
          (move (λ o. check_bytes (some bz) o ≡ done same) (sym e') refl)))

-- A request for a later height, round or step than the last, with sign bytes that the key signs
-- and a file that can be written, returns the message with that signature and leaves its place,
-- bytes and signature in memory and in the file.
pub sign_message_fresh :
    {M : Type 0} (kind : Kind M) (sign : Bytes → Option Bytes) (pv : FilePv) (now : ℕ) (m : M)
    (step : ℕ) (bz sig : Bytes)
    → kind.step m ≡ done step
    → kind.bytes m ≡ done bz
    → sign bz ≡ some sig
    → Before pv.last (record pv.last { height = kind.height m; round = kind.round m; step = step })
    → sign_message kind sign pv true now m
      ≡ done (record {
        pv = record {
          last = moved (kind.height m) (kind.round m) step bz sig;
          disk = moved (kind.height m) (kind.round m) step bz sig;
        };
        message = kind.set_signature m sig;
        error = none;
      })
unfolding sign_message sign_checked sign_new save_signed
sign_message_fresh kind sign pv now m step bz sig es eb e b =
    rw (es, check_hrs_fresh pv.last (kind.height m) (kind.round m) step b, eb, e) refl

sign_again_same :
    {M : Type 0} (kind : Kind M) (sign : Bytes → Option Bytes) (pv : FilePv) (m : M) (now : ℕ)
    (bz sig : Bytes)
    → sign_again kind sign pv m now bz (some bz) (some sig)
      ≡ done (record { pv = pv; message = kind.set_signature m sig; error = none })
unfolding sign_again
sign_again_same kind sign pv m now bz sig = rw ((bytes_equal_iff bz bz).1 refl) refl

-- The request that the state says was signed last.
sign_stored :
    {M : Type 0} (kind : Kind M) (sign : Bytes → Option Bytes) (writes : Bool) (now : ℕ) (m : M)
    (step : ℕ) (bz sig : Bytes)
    → kind.step m ≡ done step
    → kind.bytes m ≡ done bz
    → sign_message kind sign
        (record {
          last = moved (kind.height m) (kind.round m) step bz sig;
          disk = moved (kind.height m) (kind.round m) step bz sig;
        })
        writes
        now
        m
      ≡ done (record {
        pv = record {
          last = moved (kind.height m) (kind.round m) step bz sig;
          disk = moved (kind.height m) (kind.round m) step bz sig;
        };
        message = kind.set_signature m sig;
        error = none;
      })
unfolding sign_message sign_checked
sign_stored kind sign writes now m step bz sig es eb =
    let lss = moved (kind.height m) (kind.round m) step bz sig in
    rw
      (
        es,
        check_hrs_same lss (kind.height m) (kind.round m) step bz sig (refl, refl, refl) refl refl,
        eb,
      )
      (sign_again_same kind sign (record { last = lss; disk = lss }) m now bz sig)

-- A request for a later height, round or step than the last, with sign bytes that the key signs
-- and a file that can be written, is signed, and the same request once more, at any time, with any
-- answer of the key and whether or not the file can be written, also after a restart from the
-- file, returns the same message and signature and changes nothing.
pub sign_message_again :
    {M : Type 0} (kind : Kind M) (sign sign' : Bytes → Option Bytes) (pv : FilePv) (writes : Bool)
    (now now' : ℕ) (m : M) (step : ℕ) (bz sig : Bytes)
    → kind.step m ≡ done step
    → kind.bytes m ≡ done bz
    → sign bz ≡ some sig
    → Before pv.last (record pv.last { height = kind.height m; round = kind.round m; step = step })
    → (s : Signed M) × (sign_message kind sign pv true now m ≡ done s)
      × (s.message ≡ kind.set_signature m sig)
      × (s.error ≡ none)
      × (sign_message kind sign' s.pv writes now' m ≡ done s)
      × (sign_message kind sign' (record s.pv { last = s.pv.disk }) writes now' m ≡ done s)
sign_message_again kind sign sign' pv writes now now' m step bz sig es eb e b =
    let lss = moved (kind.height m) (kind.round m) step bz sig in
    let signed = sign_stored kind sign' writes now' m step bz sig es eb in
    (
      record {
        pv = record { last = lss; disk = lss };
        message = kind.set_signature m sig;
        error = none;
      },
      sign_message_fresh kind sign pv now m step bz sig es eb e b,
      refl,
      refl,
      signed,
      signed,
    )
