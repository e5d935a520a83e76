-- ===== src/Instance/Replay.antt =====
-- instance/responses_replay.go and the table `responses_replay_metadata` of
-- instance/continuation_metadata_sqlite.go: the input and the output of earlier responses, so that
-- a continuation can be replayed. An item is the text of its JSON. `Archive` is what the cold
-- store of instance/responses_replay_duckdb.go, a database, answers.
use copilot_pool_gateway.Base.{
  ℕ, ◌+◌, ◌-◌, String, Bool, true, false, not, ◌||◌, ◌&&◌, List, [], ◌∷◌, Option, none, some, ◌==◌,
  if◌then◌else◌, ltb, leb, length, trim,
}
use copilot_pool_gateway.Base.StringMap.{StringMap, get, put, remove, retain}
use copilot_pool_gateway.Instance.Turns.Bindings.{Metadata, unix}

-- responsesReplayTTL, responsesReplayMaxEntries
abbrev pub replay_ttl : ℕ
replay_ttl = 1800000000000

abbrev pub replay_max_entries : ℕ
replay_max_entries = 256

-- responsesReplayEntry
pub record ReplayEntry : Type 0 where
  pub account_id : String
  pub input : List String
  pub replay_items : List String
  pub created_at : ℕ
  pub accessed_at : ℕ

-- responsesReplayMetadataRecord; the expiry is in seconds.
pub record ReplayRow : Type 0 where
  pub account_id : String
  pub archive_ready : Bool
  pub duckdb_ref : String
  pub expires : ℕ

pub record ReplayStore : Type 0 where
  pub entries : StringMap ReplayEntry
  pub rows : StringMap ReplayRow

-- Whether the archive is enabled, whether a payload lands, and the entries that it answers.
pub record Archive : Type 0 where
  pub enabled : Bool
  pub stores : Bool
  pub cold : String → Option ReplayEntry

insert_key : String × ℕ → List (String × ℕ) → List (String × ℕ)
insert_key k [] = k ∷ []
insert_key k (j ∷ rest) =
    let later = insert_key k rest in if ltb j.1 k.1 then j ∷ later else k ∷ j ∷ rest

-- `sort.Slice` of the keys by their last access.
unfoldable pub sorted_keys : StringMap ReplayEntry → List (String × ℕ)
unfolding insert_key
sorted_keys [] = []
sorted_keys ((key, e) ∷ rest) = insert_key (key, e.accessed_at) (sorted_keys rest)

unfoldable pub drop_oldest : List (String × ℕ) → StringMap ReplayEntry → StringMap ReplayEntry
drop_oldest [] entries = entries
drop_oldest ((key, at) ∷ keys) entries =
    let smaller = drop_oldest keys (remove entries key) in
    if ltb replay_max_entries (length entries) then smaller else entries

abbrev pub is_fresh : ℕ → String × ReplayEntry → Bool
is_fresh now (key, e) = leb (now - e.created_at) replay_ttl

-- pruneResponsesReplayLocked
unfoldable pub prune_replay : ℕ → StringMap ReplayEntry → StringMap ReplayEntry
unfolding sorted_keys drop_oldest
prune_replay now entries =
    let fresh = retain (is_fresh now) entries in
    if leb (length fresh) replay_max_entries then fresh else drop_oldest (sorted_keys fresh) fresh

-- storeResponsesReplayHot
unfoldable pub store_hot : ℕ → String → ReplayEntry → StringMap ReplayEntry → StringMap ReplayEntry
unfolding prune_replay
store_hot now response_id entry entries =
    if trim response_id == ""
    then entries
    else prune_replay now
        (put (prune_replay now entries) (trim response_id) (record entry { accessed_at = now }))

abbrev touched :
    ℕ
    → String
    → Option ReplayEntry
    → StringMap ReplayEntry
    → Option ReplayEntry × StringMap ReplayEntry
touched now key none entries = (none, entries)
touched now key (some e) entries =
    (some (record e { accessed_at = now }), put entries key (record e { accessed_at = now }))

-- loadResponsesReplayHot
unfoldable pub load_hot :
    ℕ → String → StringMap ReplayEntry → Option ReplayEntry × StringMap ReplayEntry
unfolding prune_replay
load_hot now response_id entries =
    let pruned = prune_replay now entries in
    if trim response_id == ""
    then (none, entries)
    else touched now (trim response_id) (get pruned (trim response_id)) pruned

-- storeResponsesReplayMetadata, upsertResponsesReplayMetadata
unfoldable pub store_row :
    Metadata → ℕ → String → String → Bool → StringMap ReplayRow → StringMap ReplayRow
store_row md now response_id account_id ready rows =
    if not (md.opens && md.writes) || (response_id == "" || account_id == "")
    then rows
    else put rows response_id (record {
      account_id = account_id;
      archive_ready = ready;
      duckdb_ref = response_id;
      expires = unix (now + md.retention);
    })

abbrev unexpired : ℕ → Option ReplayRow → Option ReplayRow
unexpired now none = none
unexpired now (some row) = if ltb row.expires (unix now) then none else some row

-- lookupResponsesReplayMetadata, for a trimmed identifier; the time of the last look is not kept.
unfoldable pub lookup_row : Metadata → ℕ → String → StringMap ReplayRow → Option ReplayRow
lookup_row md now response_id rows =
    if md.opens && md.reads then unexpired now (get rows response_id) else none

-- storeResponsesReplay
unfoldable pub store_responses_replay :
    Metadata → Archive → ℕ → String → String → List String → List String → ReplayStore → ReplayStore
unfolding store_hot store_row
store_responses_replay md archive now account_id response_id input items s =
    let entry : ReplayEntry = record {
      account_id = trim account_id;
      input = input;
      replay_items = items;
      created_at = now;
      accessed_at = now;
    } in
    if trim response_id == "" || trim account_id == "" then s else record {
      entries = store_hot now (trim response_id) entry s.entries;
      rows =
          if md.enabled
          then store_row md now (trim response_id) (trim account_id)
              (archive.enabled && archive.stores) s.rows
          else s.rows;
    }

abbrev ref_of : String → ReplayRow → String
ref_of response_id row = if trim row.duckdb_ref == "" then response_id else trim row.duckdb_ref

abbrev from_archive :
    ℕ → String → String → Option ReplayEntry → ReplayStore → Option ReplayEntry × ReplayStore
from_archive now account_id response_id none s = (none, s)
from_archive now account_id response_id (some e) s =
    if e.account_id == account_id
    then (some e, record s { entries = store_hot now response_id e s.entries })
    else (none, s)

abbrev from_row :
    Archive
    → ℕ
    → String
    → String
    → Option ReplayRow
    → ReplayStore
    → Option ReplayEntry × ReplayStore
from_row archive now account_id response_id none s = (none, s)
from_row archive now account_id response_id (some row) s =
    if not (row.account_id == account_id) || not row.archive_ready
    then (none, s)
    else from_archive now account_id response_id (archive.cold (ref_of response_id row)) s

abbrev or_cold :
    Metadata
    → Archive
    → ℕ
    → String
    → String
    → Option ReplayEntry × StringMap ReplayEntry
    → ReplayStore
    → Option ReplayEntry × ReplayStore
or_cold md archive now account_id response_id (some e, entries) s =
    (if e.account_id == account_id then some e else none, record s { entries = entries })
or_cold md archive now account_id response_id (none, entries) s =
    if md.enabled
    then from_row archive now account_id response_id (lookup_row md now response_id s.rows)
        (record s { entries = entries })
    else (none, record s { entries = entries })

-- loadResponsesReplay
unfoldable pub load_responses_replay :
    Metadata → Archive → ℕ → String → String → ReplayStore → Option ReplayEntry × ReplayStore
unfolding load_hot lookup_row store_hot
load_responses_replay md archive now account_id response_id s =
    if trim account_id == "" || trim response_id == ""
    then (none, s)
    else or_cold md archive now (trim account_id) (trim response_id)
        (load_hot now (trim response_id) s.entries) s

abbrev account_of_hot :
    Option ReplayEntry × StringMap ReplayEntry → ReplayStore → Option String × ReplayStore
account_of_hot (none, entries) s = (none, record s { entries = entries })
account_of_hot (some e, entries) s = (some e.account_id, record s { entries = entries })

abbrev or_hot : ℕ → String → Option ReplayRow → ReplayStore → Option String × ReplayStore
or_hot now response_id (some row) s = (some row.account_id, s)
or_hot now response_id none s = account_of_hot (load_hot now response_id s.entries) s

-- LookupResponsesReplayAccount
unfoldable pub lookup_responses_replay_account :
    Metadata → ℕ → String → ReplayStore → Option String × ReplayStore
unfolding load_hot lookup_row
lookup_responses_replay_account md now response_id s =
    let row = if md.enabled then lookup_row md now (trim response_id) s.rows else none in
    if trim response_id == "" then (none, s) else or_hot now (trim response_id) row s

abbrev has_items : List String → Bool
has_items [] = false
has_items (i ∷ rest) = true

abbrev is_archived : String → Option ReplayRow → Bool
is_archived account_id none = false
is_archived account_id (some row) = row.account_id == account_id && row.archive_ready

abbrev can_replay_from :
    Metadata
    → ℕ
    → String
    → String
    → Option ReplayEntry × StringMap ReplayEntry
    → ReplayStore
    → Bool × ReplayStore
can_replay_from md now account_id response_id (some e, entries) s =
    (e.account_id == account_id && has_items e.replay_items, record s { entries = entries })
can_replay_from md now account_id response_id (none, entries) s = (
  md.enabled && is_archived account_id (lookup_row md now response_id s.rows),
  record s { entries = entries },
)

-- CanReplayResponsesContinuation
unfoldable pub can_replay_responses_continuation :
    Metadata → ℕ → String → String → ReplayStore → Bool × ReplayStore
unfolding load_hot lookup_row
can_replay_responses_continuation md now account_id response_id s =
    if trim account_id == "" || trim response_id == ""
    then (false, s)
    else can_replay_from md now (trim account_id) (trim response_id)
        (load_hot now (trim response_id) s.entries) s

-- evictResponsesReplayForAccountLocked and deleteResponsesReplayMetadataForAccount
unfoldable pub evict_replay : Metadata → String → ReplayStore → ReplayStore
evict_replay md account_id s = record {
  entries = retain (λ (key, e). not (e.account_id == account_id)) s.entries;
  rows =
      if md.enabled && md.opens && md.writes
      then retain (λ (key, row). not (row.account_id == account_id)) s.rows
      else s.rows;
}
