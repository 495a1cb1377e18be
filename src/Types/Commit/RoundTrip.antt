-- ===== src/Types/Commit/RoundTrip.antt =====
-- types/vote_set.go (MakeCommit) against types/block.go (GetVote): what a commit keeps of the votes.
use totally_not_a_fork_of_ce.Prelude.{
  ℕ, zero, suc, ◌≡◌, ◌≢◌, ◌∙◌, refl, sym, ap, true, false, List, [], ◌∷◌, Option, none, some, ◌⊎◌,
  inl, inr, get_elem?, Bool-cases,
}
use totally_not_a_fork_of_ce.Prelude.Int.{pos}
use totally_not_a_fork_of_ce.Prelude.Outcome.{done}
use totally_not_a_fork_of_ce.Types.BlockId
use totally_not_a_fork_of_ce.Types.BlockId.{BlockId, nil_block_id}
use totally_not_a_fork_of_ce.Types.Commit.{
  Commit, CommitSig, absent_sig, commit, nil, commit_sig, for_block, make_sig, make_sigs,
  make_commit, vote_of, get_vote, sig_block_id, sig_of,
}
use totally_not_a_fork_of_ce.Types.Vote.{Vote, Crypto, precommit, type_eq}
use totally_not_a_fork_of_ce.Types.VoteSet.{VoteSet}
use totally_not_a_fork_of_ce.Types.VoteSet.Slices.{Votes, At}
use totally_not_a_fork_of_ce.Types.VoteSet.Valid.{IsValid}

-- The block ID of a vote is complete or that of no block.
abbrev pub IsWhole : BlockId → Type 0
IsWhole b = (BlockId.is_complete b ≡ true) ⊎ (b ≡ nil_block_id)

-- A vote for the block or for nil is kept as it is, and a vote for another block is left out.
abbrev pub Keeps : BlockId → Vote → CommitSig → Type 0
Keeps b v cs =
    ((v.block_id ≡ b ⊎ v.block_id ≡ nil_block_id)
      → (sig_block_id cs b ≡ done v.block_id)
        × (cs.validator_address ≡ v.validator_address)
        × (cs.timestamp ≡ v.timestamp)
        × (cs.signature ≡ v.signature))
    × (v.block_id ≢ b → v.block_id ≢ nil_block_id → cs ≡ absent_sig)

nil-incomplete : BlockId.is_complete nil_block_id ≡ false
unfolding BlockId.is_complete
nil-incomplete = refl

nil-is_zero : BlockId.is_zero nil_block_id ≡ true
unfolding BlockId.is_zero
nil-is_zero = refl

make_sig-Keeps :
    (b : BlockId) (v : Vote)
    → IsWhole v.block_id
    → (cs : CommitSig) × (make_sig b (some v) ≡ done cs) × Keeps b v cs
unfolding make_sig commit_sig for_block sig_block_id
make_sig-Keeps b v w = elim (Bool-cases (BlockId.is_complete v.block_id)) [
  | inl c ↦ elim (Bool-cases (BlockId.equals v.block_id b)) [
    | inl e ↦
        let eq : v.block_id ≡ b = (BlockId.equals_iff v.block_id b).0 e in
        (
          sig_of commit v,
          simp (c, e),
          ((λ _. (ap done (sym eq), refl, refl, refl)), λ n. absurd (n eq)),
        )
    | inr e ↦ (
      absent_sig,
      simp (c, e),
      (
        (λ m. absurd (elim m [
          | inl q ↦ cc ((BlockId.equals_iff v.block_id b).1 q, e)
          | inr q ↦ cc (q, c, nil-incomplete)
        ])),
        λ _ _. refl,
      ),
    )
  ]
  | inr c ↦
      let z : v.block_id ≡ nil_block_id = elim w [ inl q ↦ cc (q, c) | inr q ↦ q ] in
      (
        sig_of nil v,
        simp (z, nil-is_zero, nil-incomplete),
        ((λ _. (ap done (sym z), refl, refl, refl)), λ _ n. absurd (n z)),
      )
]

abbrev Kept : BlockId → Option Vote → CommitSig → Type 0
Kept b none cs = cs ≡ absent_sig
Kept b (some v) cs = Keeps b v cs

make_sig-Kept :
    (b : BlockId) (o : Option Vote)
    → ((v : Vote) → o ≡ some v → IsWhole v.block_id)
    → (cs : CommitSig) × (make_sig b o ≡ done cs) × Kept b o cs
unfolding make_sig commit_sig
make_sig-Kept b none w = (absent_sig, refl, refl)
make_sig-Kept b (some v) w = make_sig-Keeps b v (w v refl)

cons-Kept :
    (b : BlockId) (x : Option Vote) (xs : Votes) (cs : CommitSig) (rest : List CommitSig)
    → Kept b x cs
    → ((i : ℕ) (o : Option Vote)
        → get_elem? xs i ≡ some o
        → (s : CommitSig) × (get_elem? rest i ≡ some s) × Kept b o s)
    → (i : ℕ) (o : Option Vote) → get_elem? (x ∷ xs) i ≡ some o
    → (s : CommitSig) × (get_elem? (cs ∷ rest) i ≡ some s) × Kept b o s
cons-Kept b x xs cs rest k ks zero o h = let q : x ≡ o = cc h in (cs, refl, rw q at k)
cons-Kept b x xs cs rest k ks (suc i) o h = ks i o h

make_sigs-Kept :
    (b : BlockId) (votes : Votes)
    → ((i : ℕ) (v : Vote) → At votes i v → IsWhole v.block_id)
    → (sigs : List CommitSig) × (make_sigs b votes ≡ done sigs)
      × ((i : ℕ) (o : Option Vote)
          → get_elem? votes i ≡ some o
          → (cs : CommitSig) × (get_elem? sigs i ≡ some cs) × Kept b o cs)
unfolding make_sigs
make_sigs-Kept b [] w = ([], refl, λ i o h. cc)
make_sigs-Kept b (x ∷ xs) w =
    let (cs, e, k) = make_sig-Kept b x (λ v q. w 0 v (ap some q)) in
    let (rest, e', ks) = make_sigs-Kept b xs (λ i v. w (suc i) v) in
    (cs ∷ rest, simp (e, e'), cons-Kept b x xs cs rest k ks)

-- A kept signature stands for its vote.
vote_of-Keeps :
    (cm : Commit) (i : ℕ) (v : Vote) (cs : CommitSig)
    → v.type ≡ precommit
    → v.height ≡ cm.height
    → v.round ≡ cm.round
    → v.validator_index ≡ pos i
    → Keeps cm.block_id v cs
    → (v.block_id ≡ cm.block_id ⊎ v.block_id ≡ nil_block_id)
    → vote_of cm i cs ≡ done v
unfolding vote_of
vote_of-Keeps cm i v cs t h r n k q =
    let (b, a, s, g) = k.0 q in simp (b, a, s, g, sym t, sym h, sym r, sym n)

-- What a commit has at an index at which the vote set has a vote, or none.
pub data Carries (cm : Commit) (i : ℕ) : Option Vote → Type 0 where
  kept :
      {v : Vote}
      → (v.block_id ≡ cm.block_id ⊎ v.block_id ≡ nil_block_id)
      → get_vote cm i ≡ done v
      → Carries cm i (some v)
  left_out :
      {v : Vote}
      → v.block_id ≢ cm.block_id
      → v.block_id ≢ nil_block_id
      → get_elem? cm.signatures i ≡ some absent_sig
      → Carries cm i (some v)
  missing : get_elem? cm.signatures i ≡ some absent_sig → Carries cm i none

Keeps-Carries :
    (cm : Commit) (i : ℕ) (v : Vote) (cs : CommitSig)
    → v.type ≡ precommit
    → v.height ≡ cm.height
    → v.round ≡ cm.round
    → v.validator_index ≡ pos i
    → get_elem? cm.signatures i ≡ some cs
    → Keeps cm.block_id v cs
    → Carries cm i (some v)
unfolding get_vote
Keeps-Carries cm i v cs t h r n g k =
    let stands : (v.block_id ≡ cm.block_id ⊎ v.block_id ≡ nil_block_id) → vote_of cm i cs ≡ done v =
      λ q. vote_of-Keeps cm i v cs t h r n k q in
    elim (Bool-cases (BlockId.equals v.block_id cm.block_id)) [
      | inl e ↦
          let q : v.block_id ≡ cm.block_id = (BlockId.equals_iff v.block_id cm.block_id).0 e in
          kept (inl q) (simp (g, stands (inl q)))
      | inr e ↦ elim (Bool-cases (BlockId.equals v.block_id nil_block_id)) [
        | inl z ↦
            let q : v.block_id ≡ nil_block_id = (BlockId.equals_iff v.block_id nil_block_id).0 z in
            kept (inr q) (simp (g, stands (inr q)))
        | inr z ↦
            let n : v.block_id ≢ cm.block_id =
              λ q. absurd (cc ((BlockId.equals_iff v.block_id cm.block_id).1 q, e)) in
            let n' : v.block_id ≢ nil_block_id =
              λ q. absurd (cc ((BlockId.equals_iff v.block_id nil_block_id).1 q, z)) in
            left_out n n' (cc (g, k.1 n n'))
      ]
    ]

Kept-Carries :
    (c : Crypto) (vs : VoteSet) (cm : Commit) (i : ℕ) (o : Option Vote) (cs : CommitSig)
    → IsValid c vs
    → vs.signed_msg_type ≡ precommit
    → vs.height ≡ cm.height
    → vs.round ≡ cm.round
    → get_elem? vs.votes i ≡ some o
    → get_elem? cm.signatures i ≡ some cs
    → Kept cm.block_id o cs
    → Carries cm i o
Kept-Carries c vs cm i none cs valid t h r p g k = missing (cc (g, k))
Kept-Carries c vs cm i (some v) cs valid t h r p g k =
    let a = valid.accepted i v p in
    Keeps-Carries cm i v cs (a.type ∙ t) (a.height ∙ h) (a.round ∙ r) a.index g k

-- On a set of precommits that satisfies the invariant, with a majority, and with votes whose block
-- IDs are complete or that of no block, MakeCommit returns a commit from which GetVote gives back
-- each vote for the block of the majority or for nil as it was added; a vote for another block and
-- a vote that is missing are marked as absent.
pub make_commit-get_vote :
    (c : Crypto) (vs : VoteSet) (b : BlockId)
    → IsValid c vs
    → vs.signed_msg_type ≡ precommit
    → vs.maj23 ≡ some b
    → ((i : ℕ) (v : Vote) → At vs.votes i v → IsWhole v.block_id)
    → (i : ℕ) (o : Option Vote) → get_elem? vs.votes i ≡ some o
    → (cm : Commit) × (make_commit vs ≡ done cm) × Carries cm i o
unfolding make_commit type_eq
make_commit-get_vote c vs b valid t m w i o h =
    let (sigs, e, k) = make_sigs-Kept b vs.votes w in
    let cm : Commit = record {
      height = vs.height;
      round = vs.round;
      block_id = b;
      signatures = sigs;
    } in
    let (cs, g, d) = k i o h in
    (cm, simp (t, m, e), Kept-Carries c vs cm i o cs valid t refl refl h g d)
