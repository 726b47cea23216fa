-- ===== src/Distribution/Defs.antt =====
-- distribution/proposal.go and distribution/dbops.go. The proposals stand in LevelDB under the prefix "DPP"
-- and their identifier, as the JSON text of their fields, which is taken as the record itself. An amount
-- is the 64 bits of an int64, whose sum wraps.
use Prim.Native.String.{◌++◌ as concat}
use ofgp_core.Base.{
  String_eq, if◌then◌else◌, Map, lookup, insert, delete, ℕ, ◌+◌, ◌%◌, ◌^◌, String, Bool, true,
  false, Option, none, some, List, [], ◌∷◌,
}
use ofgp_core.Proto.Types.{AddressInfo, WatchedTxInfo}
use ofgp_core.TxStore.Defs.{TxStore}
use ofgp_core.TxStore.Pool.{add_watched_tx, watched_tx_to_fresh}

pub data Status : Type 0 where
  fresh dealing success failed : Status

pub record Output : Type 0 where
  pub address : String
  pub amount : ℕ

pub record Proposal : Type 0 where
  pub payouts : List Output
  pub chain : String
  pub id : String

pub record DistributionInfo : Type 0 where
  pub proposal : Proposal
  pub create_time : ℕ
  pub status : Status

-- `ProposalManager`: the entries of the database, and the pool that it shares.
pub record ProposalManager : Type 0 where
  pub db : Map String DistributionInfo
  pub ts : TxStore

unfoldable pub distribution_tx_id : String → String
distribution_tx_id id = concat "DistributionTx" id

unfoldable pub recharges : List Output → List AddressInfo
recharges [] = []
recharges (o ∷ os) = record { address = o.address; amount = o.amount } ∷ recharges os

-- The loop of `genWatchedTx` over the amounts.
unfoldable pub total_amount : ℕ → List Output → ℕ
total_amount amount [] = amount
total_amount amount (o ∷ os) = total_amount ((amount + o.amount) % 2 ^ 64) os

unfoldable pub gen_watched_tx : Proposal → WatchedTxInfo
unfolding recharges total_amount
gen_watched_tx p = record {
  txid = distribution_tx_id p.id;
  amount = total_amount 0 p.payouts;
  recharge_list = recharges p.payouts;
  from = p.chain;
  to = p.chain;
  fee = 0;
  token_from = 0;
  token_to = 0;
}

abbrev pub set_distribution_proposal :
    Map String DistributionInfo → DistributionInfo → Map String DistributionInfo
set_distribution_proposal db info = insert info.proposal.id info db

abbrev pub get_distribution_proposal :
    Map String DistributionInfo → String → Option DistributionInfo
get_distribution_proposal db id = lookup id db

abbrev pub del_distribution_proposal :
    Map String DistributionInfo → String → Map String DistributionInfo
del_distribution_proposal db id = delete id db

unfoldable pub get_status : ProposalManager → String → Option Status
get_status pm id = elim (get_distribution_proposal pm.db id) [
  | none ↦ none
  | some info ↦ some info.status
]

-- `setStatus`, and with it `SetFailed`, `SetSuccess` and `SetDealing`.
unfoldable pub set_status : ProposalManager → String → Status → ProposalManager
set_status pm id status = elim (get_distribution_proposal pm.db id) [
  | none ↦ pm
  | some info ↦ record pm { db = set_distribution_proposal pm.db (record info { status = status }) }
]

-- With whether the proposal is new.
unfoldable pub add_proposal : ℕ → ProposalManager → Proposal → Bool × ProposalManager
unfolding gen_watched_tx
add_proposal now pm p = elim (get_distribution_proposal pm.db p.id) [
  | some old ↦ (false, pm)
  | none ↦ (
    true,
    record {
      db =
          set_distribution_proposal pm.db
            (record { proposal = p; create_time = now; status = fresh });
      ts = add_watched_tx now pm.ts (gen_watched_tx p);
    },
  )
]

-- A proposal that is not being executed, or has failed.
abbrev pub is_idle : Status → Bool
is_idle fresh = true
is_idle failed = true
is_idle dealing = false
is_idle success = false

unfoldable pub delete_proposal : ProposalManager → String → Bool × ProposalManager
delete_proposal pm id = elim (get_distribution_proposal pm.db id) [
  | none ↦ (true, pm)
  | some info ↦
      if is_idle info.status
      then (true, record pm { db = del_distribution_proposal pm.db id })
      else (false, pm)
]

-- `ExecuteProposal`: without a proposal the status is the value 0, which is none of the four.
unfoldable pub execute_proposal : ℕ → ProposalManager → String → ProposalManager
unfolding get_status set_status
execute_proposal now pm id = elim (get_status pm id) [
  | none ↦ pm
  | some status ↦
      if is_idle status
      then set_status (record pm { ts = watched_tx_to_fresh now pm.ts (distribution_tx_id id) }) id
          dealing
      else pm
]

abbrev pub is_success : Status → Bool
is_success success = true
is_success _ = false

abbrev pub is_dealing : Status → Bool
is_dealing dealing = true
is_dealing _ = false

-- One round of the loop of `LoadFromDB`: a proposal that a restart interrupted has failed.
unfoldable pub load_proposal : ℕ → ProposalManager → DistributionInfo → ProposalManager
unfolding gen_watched_tx set_status
load_proposal now pm info =
    if is_success info.status
    then pm
    else (let watching = record pm {
      ts = add_watched_tx now pm.ts (gen_watched_tx info.proposal);
    } in
        if is_dealing info.status then set_status watching info.proposal.id failed else watching)

-- The entries are read first, so that the loop goes over those of the start.
unfoldable pub load_all : ℕ → Map String DistributionInfo → ProposalManager → ProposalManager
unfolding load_proposal
load_all now [] pm = pm
load_all now ((id, info) ∷ entries) pm = load_all now entries (load_proposal now pm info)

unfoldable pub load_from_db : ℕ → ProposalManager → ProposalManager
unfolding load_all
load_from_db now pm = load_all now pm.db pm
