-- ===== src/Consensus/State/Order/Keeps.antt =====
-- What the handlers keep, and the changes of the state that keep it.
use totally_not_a_fork_of_ce.Prelude.{
  ◌<◌, ◌≡◌, refl, sym, ap, ◌⊎◌, inl, inr, ◌∙◌, Bool-cases, Option-cases,
}
use totally_not_a_fork_of_ce.Prelude.Int.{ℤ, pos, ◌<ℤ◌}
use totally_not_a_fork_of_ce.Types.BlockId.{BlockId}
use totally_not_a_fork_of_ce.Types.Vote.{SignedMsgType}
use totally_not_a_fork_of_ce.Consensus.RoundStep.{RoundStep, number}
use totally_not_a_fork_of_ce.Prelude.Outcome.{Outcome, done, panic, ◌>>=◌, Returns}
use totally_not_a_fork_of_ce.Consensus.State.{
  Env, State, vote, schedule_timeout, update_round_step, sign_add_vote, send, has_address,
}
use totally_not_a_fork_of_ce.Consensus.State.Commit.{next_height}
use totally_not_a_fork_of_ce.Consensus.State.Order.{
  Place, Before, UpTo, UpTo-refl, UpTo-trans, Before-UpTo, vote_place, round_place, Sorted, Settled,
  Settled-mono, Settled-AllBefore,
}

module _ {e : Env} where
  abbrev pub place_of : State e → Place
  place_of cs = record { height = cs.height; round = cs.round; step = number cs.step }

  -- What the handlers keep: the votes asked for are in order and not ahead of the state, nor are
  -- the timeouts, and the height is the one after the last block.
  pub record Good (cs : State e) : Type 0 where
    pub sorted : Sorted cs.sent
    pub settled : Settled (place_of cs) cs.sent
    pub positive : pos 0 <ℤ cs.height
    pub next : cs.height ≡ next_height cs.chain

  -- A handler has taken a state from `cs` to `cs'`.
  pub record Keeps (cs cs' : State e) : Type 0 where
    pub good : Good cs'
    pub forward : UpTo (place_of cs) (place_of cs')

  pub Keeps-refl : (cs : State e) → Good cs → Keeps cs cs
  Keeps-refl cs g = record { good = g; forward = UpTo-refl (place_of cs) }

  pub Keeps-trans : (a b d : State e) → Keeps a b → Keeps b d → Keeps a d
  Keeps-trans a b d f g = record {
    good = g.good;
    forward = UpTo-trans (place_of a) (place_of b) (place_of d) f.forward g.forward;
  }

  pub Keeps-after :
      (cs cs' : State e) (o : Outcome (State e))
      → Keeps cs cs'
      → Returns (Keeps cs') o
      → Returns (Keeps cs) o
  Keeps-after cs cs' panic k u = tt
  Keeps-after cs cs' (done d) k u = Keeps-trans cs cs' d k u

  pub keeps_bind :
      (cs : State e) (o : Outcome (State e)) (f : State e → Outcome (State e))
      → Returns (Keeps cs) o
      → ((cs' : State e) → Keeps cs cs' → Returns (Keeps cs') (f cs'))
      → Returns (Keeps cs) (o >>= f)
  keeps_bind cs panic f h k = tt
  keeps_bind cs (done cs') f h k = Keeps-after cs cs' (f cs') h (k cs' h)

  -- A later step of the same height, with nothing sent that counts.
  pub Keeps-move :
      (cs cs' : State e)
      → Good cs
      → cs'.height ≡ cs.height
      → cs'.chain ≡ cs.chain
      → cs'.sent ≡ cs.sent
      → UpTo (place_of cs) (place_of cs')
      → Keeps cs cs'
  Keeps-move cs cs' g eh ec es u = record {
    good = record {
      sorted = rw es g.sorted;
      settled = rw es (Settled-mono (place_of cs) (place_of cs') cs.sent u g.settled);
      positive = rw eh g.positive;
      next = eh ∙ g.next ∙ ap next_height (sym ec);
    };
    forward = u;
  }

  -- A timeout for a round that is reached.
  pub Keeps-schedule :
      (cs : State e) (r : ℤ) (s : RoundStep)
      → Good cs
      → UpTo (round_place cs.height r) (place_of cs)
      → Keeps cs (schedule_timeout cs cs.height r s)
  Keeps-schedule cs r s g u = record {
    good = record {
      sorted = g.sorted;
      settled = (u, g.settled);
      positive = g.positive;
      next = g.next;
    };
    forward = UpTo-refl (place_of cs);
  }

  pub sign_add_vote_cases :
      (cs : State e) (t : SignedMsgType) (b : BlockId)
      → (sign_add_vote cs t b ≡ cs) ⊎ (sign_add_vote cs t b ≡ send cs (vote t cs.height cs.round b))
  unfolding sign_add_vote
  sign_add_vote_cases cs t b = elim (Option-cases e.address) [
    | inl unset ↦ inl (rw (sign_add_vote, unset) refl)
    | inr (address, known) ↦ elim (Bool-cases (has_address cs.validators.validators address)) [
      | inl member ↦ inr (rw (sign_add_vote, known, member) refl)
      | inr other ↦ inl (rw (sign_add_vote, known, other) refl)
    ]
  ]

  voted-Keeps :
      (cs : State e) (t : SignedMsgType) (b : BlockId) (s : RoundStep) (g : Good cs) (q : Place)
      (eq : vote_place t cs.height cs.round ≡ q) (lt : Before (place_of cs) q)
      → q ≡ record { height = cs.height; round = cs.round; step = number s }
      → Keeps cs (update_round_step (send cs (vote t cs.height cs.round b)) cs.round s)
  voted-Keeps cs t b s g q eq lt same =
      let u = Before-UpTo (place_of cs) q lt in
      record {
        good = record {
          sorted = (rw eq (Settled-AllBefore (place_of cs) q cs.sent g.settled lt), g.sorted);
          settled = (
            rw (eq, same) (UpTo-refl _),
            Settled-mono (place_of cs) _ cs.sent (rw same at u) g.settled,
          );
          positive = g.positive;
          next = g.next;
        };
        forward = rw same at u;
      }

  -- The vote of the step that is entered, if it is asked for.
  pub Keeps-vote :
      (cs : State e) (t : SignedMsgType) (b : BlockId) (s : RoundStep)
      → Good cs
      → vote_place t cs.height cs.round
        ≡ record { height = cs.height; round = cs.round; step = number s }
      → number cs.step < number s
      → Keeps cs (update_round_step (sign_add_vote cs t b) cs.round s)
  Keeps-vote cs t b s g eq lt =
      let q : Place = record { height = cs.height; round = cs.round; step = number s } in
      let before : Before (place_of cs) q = inr (refl, inr (refl, lt)) in
      elim (sign_add_vote_cases cs t b) [
        | inl idle ↦ rw idle (
            Keeps-move cs (update_round_step cs cs.round s) g refl refl refl
              (Before-UpTo (place_of cs) q before))
        | inr asked ↦ rw asked (voted-Keeps cs t b s g q eq before refl)
      ]
