-- ===== src/Examples/TurnRuns.antt =====
-- The theorems on turns, at one account's cache.
use copilot_pool_gateway.Base.{
  none, ◌++◌, ◌↔◌, ◌⊎◌, ◌+◌, ◌≤◌, String, ◌≡◌, ◌≢◌, refl, true, false, List, [], ◌∷◌, some, arith,
  ◌==◌, length, trim, is_space,
}
use copilot_pool_gateway.Base.StringMap.{Distinct, get}
use copilot_pool_gateway.Instance.Turns.{TurnContext, unique_trimmed}
use copilot_pool_gateway.Instance.Turns.Cache.{store_entry, load_entry}
use copilot_pool_gateway.Instance.Turns.Cache.Laws.{
  CacheCall, store_call, load_call, lookup_call, evict_call, cache_run, cache_run_bounded,
  load_entry-store_entry,
}
use copilot_pool_gateway.Instance.Turns.Bindings.{
  Metadata, TurnStore, lookup_turn_account, evict_turns,
}
use copilot_pool_gateway.Instance.Turns.Bindings.Evicted.{lookup_turn_account-evict_turns}
use copilot_pool_gateway.Instance.Turns.Session.{
  SessionResolution, resolve_response_function_call_session,
}
use copilot_pool_gateway.Instance.Turns.Session.Owners.{owners, KindFits, resolve_session-fits}
use copilot_pool_gateway.Instance.Turns.Session.{member}
use copilot_pool_gateway.Instance.ToolValidation.{
  AnthropicMessage, is_empty, collect_anthropic_tool_result_ids, collect_anthropic_tool_use_ids,
  validate_anthropic_tool_continuation,
}
use copilot_pool_gateway.Instance.ToolValidation.Newest.{
  has_role, validate_anthropic_tool_continuation-newest,
}

abbrev context : TurnContext
context = record { interaction_id = "i"; client_session_id = "s"; agent_task_id = "t" }

abbrev metadata : Metadata
metadata = record {
  enabled = true;
  opens = true;
  reads = true;
  writes = true;
  retention = 86400000000000;
}

abbrev store : TurnStore
store = record {
  entries =
      ("c1", record { account_id = "a1"; context = context; created_at = 10; accessed_at = 10 })
      ∷ [];
  bindings =
      (
        "c2",
        record {
          account_id = "b2";
          context = context;
          created = 0;
          last_seen = 0;
          expires = 86400;
        },
      )
      ∷ [];
}

abbrev calls : List CacheCall
calls =
    store_call 5 "c1" "a1" context
    ∷ load_call 6 "c1" "a1"
    ∷ lookup_call 7 "c1"
    ∷ evict_call "a1"
    ∷ []

cache_run_bounded_example : Distinct (cache_run calls []) × (length (cache_run calls []) ≤ 1024)
cache_run_bounded_example = cache_run_bounded calls

call_named : (trim " c1" == "") ≡ false
unfolding trim is_space
call_named = refl

account_named : (trim "a1" == "") ≡ false
unfolding trim is_space
account_named = refl

load_entry-store_entry_example :
    (load_entry 900 " c1" "a1" (store_entry 30 " c1" "a1" context [])).0 ≡ some context
load_entry-store_entry_example =
    load_entry-store_entry 30 900 " c1" "a1" context [] tt (omega arith) call_named account_named
      (omega arith)

lookup_turn_account-evict_turns_example :
    (lookup_turn_account metadata 20 "c1" (evict_turns metadata "a1" store).1).0 ≢ some "a1"
unfolding get
lookup_turn_account-evict_turns_example =
    lookup_turn_account-evict_turns metadata metadata 20 "c1" "a1" store (refl, tt) (refl, tt) refl

resolve_session-fits_example :
    let r : SessionResolution =
      (resolve_response_function_call_session metadata 20 ("c1" ∷ " c2" ∷ "c3" ∷ []) store).0 in
    let found : List String =
      owners metadata 20 (unique_trimmed ("c1" ∷ " c2" ∷ "c3" ∷ [])) store in
    KindFits r.kind r.account_id found
    × (r.hit_count ≡ length found)
    × (r.hit_count + r.miss_count ≡ length (unique_trimmed ("c1" ∷ " c2" ∷ "c3" ∷ [])))
resolve_session-fits_example = resolve_session-fits metadata 20 ("c1" ∷ " c2" ∷ "c3" ∷ []) store

abbrev asked : AnthropicMessage
asked = record {
  role = "assistant";
  blocks = (record { kind = "tool_use"; id = "t1"; tool_use_id = "" }) ∷ [];
}

abbrev answered : AnthropicMessage
answered = record {
  role = "user";
  blocks = (record { kind = "tool_result"; id = ""; tool_use_id = "t1 " }) ∷ [];
}

abbrev said : String → AnthropicMessage
said role = record { role = role; blocks = [] }

no_assistant : has_role "assistant" (said "user" ∷ []) ≡ false
unfolding has_role
no_assistant = refl

no_user : has_role "user" (said "assistant" ∷ []) ≡ false
unfolding has_role
no_user = refl

validate_anthropic_tool_continuation-newest_example :
    (validate_anthropic_tool_continuation
        ((answered ∷ []) ++ (asked ∷ ((said "user" ∷ []) ++ (answered ∷ (said "assistant" ∷ [])))))
      ≡ none)
    ↔ ((is_empty (collect_anthropic_tool_result_ids answered.blocks) ≡ true)
        ⊎ ((is_empty (collect_anthropic_tool_use_ids asked.blocks) ≡ false)
            × ((id : String)
                → member id (collect_anthropic_tool_result_ids answered.blocks)
                  ≡ member id (collect_anthropic_tool_use_ids asked.blocks))))
validate_anthropic_tool_continuation-newest_example =
    validate_anthropic_tool_continuation-newest (answered ∷ []) (said "user" ∷ [])
      (said "assistant" ∷ []) asked answered refl no_assistant refl no_user
