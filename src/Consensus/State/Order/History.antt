-- ===== src/Consensus/State/Order/History.antt =====
-- Any sequence of messages and timeouts.
use totally_not_a_fork_of_ce.Prelude.{◌≡◌}
use totally_not_a_fork_of_ce.Prelude.Bytes.{Bytes}
use totally_not_a_fork_of_ce.Prelude.Int.{ℤ}
use totally_not_a_fork_of_ce.Prelude.Outcome.{Outcome, done, Returns}
use totally_not_a_fork_of_ce.Types.Proposal.{Proposal}
use totally_not_a_fork_of_ce.Types.Vote.{Vote, Crypto}
use totally_not_a_fork_of_ce.Consensus.RoundStep.{RoundStep}
use totally_not_a_fork_of_ce.Consensus.State.{Env, State, timeout}
use totally_not_a_fork_of_ce.Consensus.State.Proposals.{set_proposal, add_proposal_block_part}
use totally_not_a_fork_of_ce.Consensus.State.Handle.{add_vote, handle_timeout, handle_txs_available}
use totally_not_a_fork_of_ce.Consensus.State.Order.{Settled-timeout}
use totally_not_a_fork_of_ce.Consensus.State.Order.Keeps.{
  place_of, Good, Keeps, Keeps-refl, Keeps-trans,
}
use totally_not_a_fork_of_ce.Consensus.State.Order.NextHeight.{IsLawful}
use totally_not_a_fork_of_ce.Consensus.State.Order.Handle.{
  add_vote-Keeps, handle_timeout-Keeps, handle_txs_available-Keeps,
}
use totally_not_a_fork_of_ce.Consensus.State.Order.Proposals.{
  set_proposal-Keeps, add_proposal_block_part-Keeps,
}
use mathlib.Core.List.{Memᴰ}

-- One turn of receiveRoutine on the state: a message that is handled without a panic, or a timeout
-- that was scheduled.
pub data Turn (e : Env) (c : Crypto) (cs cs' : State e) : Type 0 where
  proposal : (p : Proposal) → set_proposal cs p ≡ done cs' → Turn e c cs cs'
  block_part :
      (h : ℤ) (part : e.Part) → add_proposal_block_part cs h part ≡ done cs' → Turn e c cs cs'
  vote : (v : Vote) (peer : Bytes) → add_vote c cs v peer ≡ done cs' → Turn e c cs cs'
  times_out :
      (h r : ℤ) (s : RoundStep)
      → Memᴰ (timeout h r s) cs.sent
      → handle_timeout cs h r s ≡ done cs'
      → Turn e c cs cs'
  txs_available : handle_txs_available cs ≡ done cs' → Turn e c cs cs'

pub data Turns (e : Env) (c : Crypto) (cs : State e) : State e → Type 0 where
  start : Turns e c cs cs
  next : {mid cs' : State e} → Turns e c cs mid → Turn e c mid cs' → Turns e c cs cs'

module _ {e : Env} (law : IsLawful e) (c : Crypto) where
  returned :
      (cs cs' : State e) (o : Outcome (State e))
      → o ≡ done cs'
      → Returns (Keeps cs) o
      → Keeps cs cs'
  returned cs cs' o h k = rw h at k

  Turn-Keeps : (cs cs' : State e) → Good cs → Turn e c cs cs' → Keeps cs cs'
  Turn-Keeps cs cs' g (proposal p h) =
      returned cs cs' (set_proposal cs p) h (set_proposal-Keeps cs p g)
  Turn-Keeps cs cs' g (block_part height part h) =
      returned cs cs' (add_proposal_block_part cs height part) h
        (add_proposal_block_part-Keeps law cs height part g)
  Turn-Keeps cs cs' g (vote v peer h) =
      returned cs cs' (add_vote c cs v peer) h (add_vote-Keeps law c cs v peer g)
  Turn-Keeps cs cs' g (times_out height r s m h) =
      returned cs cs' (handle_timeout cs height r s) h (
        handle_timeout-Keeps law cs height r s g
          (Settled-timeout (place_of cs) cs.sent height r s g.settled m))
  Turn-Keeps cs cs' g (txs_available h) =
      returned cs cs' (handle_txs_available cs) h (handle_txs_available-Keeps law cs g)

  -- However proposals, block parts, votes, scheduled timeouts and notices of transactions follow
  -- one another, if the handlers return, a state whose requests are in order stays so: the votes
  -- and proposals that it asks its validator to sign are strictly increasing in height, round and
  -- type, so that no two are for the same ones; no vote or proposal asked for and no timeout is
  -- ahead of the state; and height, round and step never go back. ApplyBlock is to return the
  -- state after the block.
  pub Turns-Keeps : (cs cs' : State e) → Good cs → Turns e c cs cs' → Keeps cs cs'
  Turns-Keeps cs cs' g start = Keeps-refl cs g
  Turns-Keeps cs cs' g (next {mid = mid} before turn) =
      let k = Turns-Keeps cs mid g before in
      Keeps-trans cs mid cs' k (Turn-Keeps mid cs' k.good turn)
