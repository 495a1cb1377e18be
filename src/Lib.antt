-- ===== src/Lib.antt =====
-- Verification of the deciding parts of a Byzantine fault tolerant node: vote sets, validator
-- sets and commits, the verification of commits, the private validator that signs, the state
-- machine of consensus with its vote sets by round, and the light client's verification of headers.
--
-- Paths are from the repository's root.
--
-- Prelude: names of the libraries, lists, integers, byte strings, maps and `Outcome`, the result of
--   a Go call that may panic. Integers of 32 and 64 bits are unbounded integers here: the code
--   compares heights and rounds, adds one to heights and goes through rounds one by one, and the
--   sums of voting powers stay below MaxTotalVotingPower, which the model writes out with its
--   panic. Byte strings are lists of numbers.
-- Types.PartSetHeader, Types.BlockId: types/part_set.go and types/block.go (BlockID). `key` is
--   BlockID.Key, with the protobuf encoding of the header (proto/tendermint/types/types.pb.go).
-- Types.Vote: types/vote.go, types/canonical.go, types/signed_msg_type.go. The signature scheme and
--   the protobuf encoder are the parameter `Crypto`. A timestamp stands for a time that protobuf
--   encodes (the years 1 to 9999), so that the encoder does not fail: the panics of VoteSignBytes
--   and ProposalSignBytes on its error are left out.
-- Types.ValidatorSet: types/validator.go and types/validator_set.go: the lookups, the total power
--   with its cache (`total_voting_power`), the proposer. Powers are not negative.
-- Types.BlockVotes, Types.VoteSet: types/vote_set.go. `add_vote` is addVote, divided where the code
--   branches: add_vote_at, add_vote_by, add_vote_of, add_if_new and add_new_vote are its successive
--   rests, and place, track, count and promote are the parts of addVerifiedVote. The maps are
--   functions to options. The mutex makes each call a step of its own.
--   Types.VoteSet.Valid has the invariant `IsValid`; Power sums the powers of voters; Add, AddVote
--   and Claims follow the calls; Majority has what the queries say; History has sequences of calls.
-- Types.Commit: types/block.go (CommitSig, Commit, CommitToVoteSet), types/vote.go (CommitSig) and
--   types/vote_set.go (MakeCommit); RoundTrip compares a commit with the votes it is made from.
-- Types.Validation: types/validation.go. `Mode` holds the arguments with which the three functions
--   call the loops. A loop body takes the rest of the loop as an argument. The batch verifier of
--   crypto/batch is the parameter `Batch`, chosen by the key of the proposer. In Faithful,
--   `IsFaithful` is what crypto/crypto.go documents of its Verify, and `AddsAll` says that its Add
--   refuses no valid signature of the validators of a set, which holds if their keys are of one type
--   and not in general. Finding is about the lookups, Batching compares the two loops.
--   Types.Validation.Entry has the three functions and Types.Validation.Arithmetic their int64
--   arithmetic (libs/math/fraction.go, safeMul).
-- Types.Proposal, Privval: types/proposal.go and privval/file.go. `sign_message` is what signVote and
--   signProposal share, and `vote_kind` and `proposal_kind` where they differ. `FilePv` has the
--   state in memory and the one in the file; a failed write panics. Signing follows one call,
--   Kinds has votes and proposals with the parameter `Codec` for the protobuf library, Progress says
--   what a call returns, History has sequences of calls, failed writes and restarts, and Toy a
--   concrete encoding for the runs.
-- Consensus.HeightVoteSet: internal/consensus/types/height_vote_set.go, over Types.VoteSet. Rounds are
--   the keys of a map; a changed vote set is written back to its round (`store`), as Go shares it
--   by pointer. Valid has the invariant, SetRound, Store and AddVote follow the calls, Pol is
--   POLInfo, Agreement is about the sets of two nodes and History has sequences of calls. The loop
--   of SetRound takes as many turns as there are rounds to go through. At the round MaxInt32 Go's
--   variable wraps around and the loop does not end, so that the theorems ask for a lower round.
-- Consensus.RoundStep, Consensus.State: internal/consensus/types/round_state.go and
--   internal/consensus/state.go. A handler is a function from a state to the next one, or a panic;
--   what it sends (timeouts, requests for signatures, final blocks) is the list `sent`. Enter has
--   enterNewRound to enterPrevoteWait, Precommit has enterPrecommit, Commit has enterCommit to
--   updateToState, Proposals and Handle have the handlers of messages and timeouts. `Env` is what
--   the handlers call: blocks and part sets, the block executor, the proposer's priorities and
--   the configuration; Order.NextHeight.IsLawful is what they rely on. The event bus and the log of
--   messages are taken not to fail; the powers of a set are summed up before a vote is looked at,
--   which makes no difference for a valid set.
--   Order follows the votes and proposals that are asked for through every handler (Keeps has what
--   is kept), Asking says who asks, Locks has the locking rule, Final the commit of a block, and
--   Signed puts the private validator to the requests: `sign_all` signs votes and proposals one
--   after another, as signVote and defaultDecideProposal do.
-- Types.Header, Light: types/block.go (Header), types/light.go and light/verifier.go. The Merkle
--   roots of headers and validators are the parameter `Hashing`. Heights are below the greatest int64.
--   Light.Sound has what it means that a header is accepted.
--
-- Loops are structural recursion on the list that they go through, or on the number of rounds from
-- the first to the last, so that they end without fuel.
--
-- Not modelled: the write-ahead log, the reactor and the start of consensus, the light client's
-- loops and store, the mempool, evidence, shares, networking, storage and the application
-- interface; printing, JSON and most of the protobuf conversions; the locks, as each call holds its
-- mutex to its end.
pub mod Prelude
pub mod Types
pub mod Privval
pub mod Consensus
pub mod Light
