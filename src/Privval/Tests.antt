-- ===== src/Privval/Tests.antt =====
-- Runs of a private validator, and the theorems at them.
use totally_not_a_fork_of_ce.Prelude.{
  ℕ, ◌≡◌, refl, ap, inl, List, [], ◌∷◌, replicate, get_elem?, true, false, Option, none, some,
  arith,
}
use totally_not_a_fork_of_ce.Prelude.Bytes.{Bytes, bytes_equal}
use totally_not_a_fork_of_ce.Prelude.Int.{pos}
use totally_not_a_fork_of_ce.Prelude.Outcome.{done}
use totally_not_a_fork_of_ce.Types.BlockId
use totally_not_a_fork_of_ce.Types.BlockId.{BlockId}
use totally_not_a_fork_of_ce.Types.Vote
use totally_not_a_fork_of_ce.Types.Vote.{
  Vote, prevote, precommit, canonicalize_vote, canonicalize_block_id,
}
use totally_not_a_fork_of_ce.Privval.{
  Signed, LastSignState, FilePv, vote_kind, sign_vote, sign_message, sign_checked, sign_new,
  sign_again, retimed, save_signed, check_hrs, check_votes, vote_to_step,
}
use totally_not_a_fork_of_ce.Privval.Signing.{IsValid}
use totally_not_a_fork_of_ce.Privval.Kinds.{IsOwn}
use totally_not_a_fork_of_ce.Privval.Progress.{moved, sign_message_fresh, sign_message_again}
use totally_not_a_fork_of_ce.Privval.History.{
  Event, sign_a_vote, restart, Message, voted, released, handle, bytes_of, signature_of,
  no_double_signing,
}
use totally_not_a_fork_of_ce.Privval.Toy.{scheme, codec, codec-IsFaithful}

abbrev unsigned : LastSignState
unsigned = record { height = pos 0; round = pos 0; step = 0; signature = none; sign_bytes = none }

abbrev start : FilePv
start = record { last = unsigned; disk = unsigned }

start-IsValid : IsValid (IsOwn scheme codec) start
start-IsValid = record { persisted = refl; own = λ bz h. ground arith }

abbrev block : ℕ → BlockId
block n = record { hash = replicate 32 n; parts = record { total = 1; hash = replicate 32 n } }

abbrev vote : ℕ → ℕ → Bytes → Vote
vote n time sig = record {
  type = prevote;
  height = pos 3;
  round = pos 0;
  block_id = block n;
  timestamp = time;
  validator_address = 7 ∷ [];
  validator_index = pos 0;
  signature = sig;
}

-- A key that answers with the number of the call.
abbrev answers : ℕ → Bytes → Option Bytes
answers n bz = some (n ∷ [])

-- A vote; the same with a later timestamp; after a crash and a restart, a vote for another block.
abbrev events : List Event
events =
    sign_a_vote (answers 1) true 50 (vote 1 10 [])
    ∷ sign_a_vote (answers 2) true 51 (vote 1 20 [])
    ∷ restart
    ∷ sign_a_vote (answers 3) true 52 (vote 2 30 [])
    ∷ []

released_run :
    released scheme codec [] start events
    ≡ voted (vote 1 10 (1 ∷ [])) ∷ voted (vote 1 10 (1 ∷ [])) ∷ []
unfolding released handle sign_vote sign_message sign_checked sign_new sign_again retimed
    save_signed check_hrs check_votes vote_to_step Vote.vote_sign_bytes canonicalize_vote
    canonicalize_block_id BlockId.validate_basic BlockId.is_zero bytes_equal
released_run = refl

abbrev signed : Message
signed = voted (vote 1 10 (1 ∷ []))

first_released : get_elem? (released scheme codec [] start events) 0 ≡ some signed
first_released = ap (λ ms. get_elem? ms 0) released_run

second_released : get_elem? (released scheme codec [] start events) 1 ≡ some signed
second_released = ap (λ ms. get_elem? ms 1) released_run

no_double_signing_example :
    (bytes_of scheme codec [] signed ≡ bytes_of scheme codec [] signed)
    × (signature_of signed ≡ signature_of signed)
no_double_signing_example =
    no_double_signing scheme codec [] codec-IsFaithful start start-IsValid events 0 1 signed signed
      first_released second_released (refl, refl, refl)

-- The sign bytes of the vote in the encoding of the runs.
abbrev bytes : Bytes
bytes = scheme.marshal_delimited (record {
  type = prevote;
  height = pos 3;
  round = pos 0;
  block_id = some (block 1);
  timestamp = 10;
  chain_id = [];
})

vote_run : Vote.vote_sign_bytes scheme [] (vote 1 10 []) ≡ done bytes
unfolding Vote.vote_sign_bytes canonicalize_vote canonicalize_block_id BlockId.validate_basic
    BlockId.is_zero
vote_run = refl

abbrev lss : LastSignState
lss = moved (pos 3) (pos 0) 2 bytes (1 ∷ [])

abbrev later : FilePv
later = record { last = lss; disk = lss }

sign_message_fresh_example :
    sign_message (vote_kind scheme codec []) (answers 1) start true 50 (vote 1 10 [])
    ≡ done (record { pv = later; message = vote 1 10 (1 ∷ []); error = none })
unfolding vote_to_step
sign_message_fresh_example =
    sign_message_fresh (vote_kind scheme codec []) (answers 1) start 50 (vote 1 10 []) 2 bytes
      (1 ∷ []) refl vote_run refl (inl (omega arith))

sign_message_again_example :
    (s : Signed Vote) × (sign_message
        (vote_kind scheme codec [])
        (answers 1)
        start
        true
        50
        (vote 1 10 [])
      ≡ done s)
    × (s.message ≡ vote 1 10 (1 ∷ []))
    × (s.error ≡ none)
    × (sign_message (vote_kind scheme codec []) (answers 2) s.pv false 60 (vote 1 10 []) ≡ done s)
    × (sign_message
          (vote_kind scheme codec [])
          (answers 2)
          (record s.pv { last = s.pv.disk })
          false
          60
          (vote 1 10 [])
        ≡ done s)
unfolding vote_to_step
sign_message_again_example =
    sign_message_again (vote_kind scheme codec []) (answers 1) (answers 2) start false 50 60
      (vote 1 10 []) 2 bytes (1 ∷ []) refl vote_run refl (inl (omega arith))
