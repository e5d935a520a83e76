-- ===== src/Handler/CallIds/Sent.antt =====
-- The identifiers that agents send, and those that the upstream gave them.
use copilot_pool_gateway.Base.{
  ◌+◌, String, ◌≡◌, refl, sym, ap, ◌∙◌, Bool, true, false, not, ◌||◌, ◌&&◌, List, [], ◌∷◌, arith,
  if◌then◌else◌, eqb, eqb_iff, trim, has_prefix, length_bytes, take_bytes, drop_text, append_text,
  take_bytes-append_text, has_prefix-append_text_first, length_bytes-append_text, map,
}
use copilot_pool_gateway.Base.Json.{Json}
use copilot_pool_gateway.Instance.Turns.{unique_trimmed}
use copilot_pool_gateway.Handler.CallIds.{
  canonicalize_copilot_call_id, canonical_id, output_ids, rewrite_function_call_output_call_ids,
  extract_response_function_call_output_ids,
}
use copilot_pool_gateway.Handler.CallIds.Canonical.{extract-rewrite_function_call_output_call_ids}

-- An identifier as it is, or the body of one that an agent has mangled, with the agent's tag.
pub data SentId : Type 0 where
  untouched : String → SentId
  mangled : String → String → SentId

unfoldable pub sent : SentId → String
sent (untouched id) = id
sent (mangled body tag) = append_text "call" (append_text body tag)

unfoldable pub minted : SentId → String
minted (untouched id) = id
minted (mangled body tag) = append_text "call_" body

-- An identifier as it is does not look like a mangled one; a mangled one has a body of 24 bytes, which
-- does not begin with an underscore, and a tag of 12.
unfoldable pub is_sent : SentId → Bool
is_sent (untouched id) =
    has_prefix "call_" id || (not (eqb (length_bytes id) 40) || not (has_prefix "call" id))
is_sent (mangled body tag) =
    eqb (length_bytes body) 24 && (eqb (length_bytes tag) 12 && not (has_prefix "_" body))

unfoldable pub are_sent : List SentId → Bool
unfolding is_sent
are_sent [] = true
are_sent (id ∷ ids) = is_sent id && are_sent ids

has_prefix-body :
    (body tag : String)
    → length_bytes body ≡ 24
    → has_prefix "_" body ≡ false
    → has_prefix "call_" (append_text "call" (append_text body tag)) ≡ false
unfolding has_prefix append_text
has_prefix-body body tag e h = has_prefix-append_text_first "_" body tag 23 e ∙ h

mangled_has_prefix : (s : String) → has_prefix "call" (append_text "call" s) ≡ true
unfolding has_prefix append_text
mangled_has_prefix s = refl

length_bytes-mangled : (s : String) → length_bytes (append_text "call" s) ≡ 4 + length_bytes s
unfolding length_bytes append_text
length_bytes-mangled s = ground arith

rewritten :
    (first long called : Bool) (id new : String)
    → first ≡ false
    → long ≡ true
    → called ≡ true
    → (if first then id else if not long || not called then id else new) ≡ new
rewritten first long called id new f g h = rw (f, g, h) refl

body_of :
    (body tag : String)
    → length_bytes body ≡ 24
    → take_bytes 24 (drop_text 4 (append_text "call" (append_text body tag))) ≡ body
unfolding drop_text append_text
body_of body tag e =
    ap (λ n. take_bytes n (append_text body tag)) (sym e) ∙ take_bytes-append_text body tag

canonicalize_mangled :
    (body tag : String)
    → length_bytes body ≡ 24
    → length_bytes tag ≡ 12
    → has_prefix "_" body ≡ false
    → canonicalize_copilot_call_id (append_text "call" (append_text body tag))
      ≡ append_text "call_" body
unfolding canonicalize_copilot_call_id
canonicalize_mangled body tag e f h =
    let id = append_text "call" (append_text body tag) in
    let long : length_bytes id ≡ 40 =
      length_bytes-mangled (append_text body tag)
      ∙ ap (λ n. 4 + n) (length_bytes-append_text body tag)
      ∙ ground (arith, e, f) in
    rewritten (has_prefix "call_" id) (eqb (length_bytes id) 40) (has_prefix "call" id) id _
      (has_prefix-body body tag e h) ((eqb_iff _ _).1 long)
      (mangled_has_prefix (append_text body tag))
    ∙ ap (append_text "call_") (body_of body tag e)

canonicalize_sent :
    (id : SentId) → is_sent id ≡ true → canonicalize_copilot_call_id (sent id) ≡ minted id
unfolding canonicalize_copilot_call_id sent minted is_sent
canonicalize_sent (untouched id) h = ground arith
canonicalize_sent (mangled body tag) h =
    canonicalize_mangled body tag ((eqb_iff _ _).0 (ground arith)) ((eqb_iff _ _).0 (ground arith))
      (ground arith)

map-sent :
    (ids : List SentId)
    → are_sent ids ≡ true
    → map canonicalize_copilot_call_id (map sent ids) ≡ map minted ids
unfolding are_sent
map-sent [] h = refl
map-sent (id ∷ ids) h =
    ap (λ c. c ∷ map canonicalize_copilot_call_id (map sent ids))
      (canonicalize_sent id (ground arith))
    ∙ ap (λ more. minted id ∷ more) (map-sent ids (ground arith))

map-trim :
    (ids : List String) → map canonical_id ids ≡ map canonicalize_copilot_call_id (map trim ids)
map-trim [] = refl
map-trim (id ∷ ids) = ap (λ more. canonical_id id ∷ more) (map-trim ids)

-- For every body whose identifiers of outputs, trimmed, are each either untouched and without the
-- look of a mangled one, or mangled by an agent (the underscore after `call` left out, and a tag of
-- 12 bytes behind a body of 24, which begins with no underscore): those that are read off the
-- rewritten body are the ones before the mangling, trimmed and without repetitions.
pub extract-rewrite_sent :
    (body : Json) (ids : List SentId)
    → are_sent ids ≡ true
    → map trim (output_ids body) ≡ map sent ids
    → extract_response_function_call_output_ids (rewrite_function_call_output_call_ids body)
      ≡ unique_trimmed (map minted ids)
extract-rewrite_sent body ids h e =
    extract-rewrite_function_call_output_call_ids body
    ∙ ap unique_trimmed
        (map-trim (output_ids body) ∙ ap (map canonicalize_copilot_call_id) e ∙ map-sent ids h)
