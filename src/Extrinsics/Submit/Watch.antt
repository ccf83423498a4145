-- ===== src/Extrinsics/Submit/Watch.antt =====
-- What the messages say when an extrinsic is taken to be in a block.
use async_substrate_interfac.Prelude.{
  ◌≡◌, refl, ap, ◌∙◌, Bool, true, false, not, ◌&&◌, Option, none, some, List, [], ◌∷◌, ◌++◌,
  if◌then◌else◌, is_some, arith, All, Option-cases, Bool-cases, inl, inr,
}
use async_substrate_interfac.Json.{Json, null, num, str, tuple, dict, Fields, key_of, field_of}
use async_substrate_interfac.Extrinsics.Submit.{
  lower_field, has_status, override, failure_of, Handled, failed, included, unfinished, key_error,
  handle_status, handle_result, handle_params, result_handler, in_block, next_message,
  read_messages, watch,
}

-- The status that a message carries, where it carries one.
unfoldable pub status_in : Fields → Option Fields
status_in message = elim (field_of "params" message) [
  | none ↦ none
  | some params ↦ elim (key_of "result" params) [
    | none ↦ none
    | some result ↦ elim result [ dict status ↦ some status | _ ↦ none ]
  ]
]

-- The status names none of the failures.
abbrev pub HasNoFailure : Fields → Type 0
HasNoFailure status =
    (has_status "usurped" status ≡ false)
    × (has_status "retracted" status ≡ false)
    × (has_status "finalitytimeout" status ≡ false)
    × (has_status "dropped" status ≡ false)
    × (has_status "invalid" status ≡ false)

no_failure : (status : Fields) → failure_of status ≡ none → HasNoFailure status
unfolding failure_of override
no_failure status h = ground arith

-- A status that an extrinsic is taken to be in a block by: it names no failure, and it names the
-- block under the key that is waited for.
abbrev pub Includes : Bool → Bool → Fields → Option Json → Bool → Type 0
Includes wait_for_inclusion wait_for_finalization status h final =
    HasNoFailure status
    × (final ≡ wait_for_finalization)
    × (h ≡ lower_field (if wait_for_finalization then "finalized" else "inblock") status)
    × (is_some h ≡ true)

picked :
    (wi wf : Bool) (a b h : Option Json) (final : Bool)
    → (if is_some a && wf
        then included a true
        else if is_some b && wi && not wf
        then included b false
        else unfinished)
      ≡ included h final
    → (final ≡ wf) × (h ≡ (if wf then a else b)) × (is_some h ≡ true)
picked wi wf a b h final e = ground arith

handled_status :
    (wi wf : Bool) (status : Fields)
    → failure_of status ≡ none
    → handle_status wi wf status ≡ (
        if is_some (lower_field "finalized" status) && wf
        then included (lower_field "finalized" status) true
        else if is_some (lower_field "inblock" status) && wi && not wf
        then included (lower_field "inblock" status) false
        else unfinished)
unfolding handle_status
handled_status wi wf status good = rw (handle_status, good) refl

if_same :
    (wf : Bool) (status : Fields)
    → (if wf then lower_field "finalized" status else lower_field "inblock" status)
      ≡ lower_field (if wf then "finalized" else "inblock") status
if_same true status = refl
if_same false status = refl

included_status :
    (wi wf : Bool) (status : Fields) (h : Option Json) (final : Bool)
    → handle_status wi wf status ≡ included h final
    → Includes wi wf status h final
unfolding handle_status
included_status wi wf status h final e = elim (Option-cases (failure_of status)) [
  | inr (f, bad) ↦ absurd (cc (rw (handle_status, bad) at e))
  | inl good ↦
      let (same, found, there) =
        picked wi wf (lower_field "finalized" status) (lower_field "inblock" status) h final
          (rw (handled_status wi wf status good) at e) in
      (no_failure status good, same, found ∙ if_same wf status, there)
]

included_result :
    (wi wf : Bool) (result : Json) (h : Option Json) (final : Bool)
    → handle_result wi wf result ≡ included h final
    → (status : Fields) × (result ≡ dict status) × Includes wi wf status h final
unfolding handle_result
included_result wi wf (dict status) h final e =
    (status, refl, included_status wi wf status h final e)
included_result wi wf (str s) h final e = absurd (ground arith)
included_result wi wf null h final e = absurd (cc e)
included_result wi wf (num n) h final e = absurd (cc e)
included_result wi wf (tuple l) h final e = absurd (cc e)

included_params :
    (wi wf : Bool) (params : Json) (h : Option Json) (final : Bool)
    → handle_params wi wf params ≡ included h final
    → (status : Fields) × (key_of "result" params ≡ some (dict status))
      × Includes wi wf status h final
unfolding handle_params
included_params wi wf params h final e = elim (Option-cases (key_of "result" params)) [
  | inl missing ↦ absurd (cc (rw (handle_params, missing) at e))
  | inr (result, found) ↦
      let (status, is_dict, good) =
        included_result wi wf result h final (rw (handle_params, found) at e) in
      (status, found ∙ ap some is_dict, good)
]

-- A message by which an extrinsic is taken to be in a block carries such a status.
included_message :
    (wi wf : Bool) (message : Fields) (h : Option Json) (final : Bool)
    → result_handler wi wf message ≡ included h final
    → (status : Fields) × (status_in message ≡ some status) × Includes wi wf status h final
unfolding result_handler status_in
included_message wi wf message h final e = elim (Option-cases (field_of "params" message)) [
  | inl missing ↦ absurd (cc (rw (result_handler, missing) at e))
  | inr (params, found) ↦
      let (status, there, good) =
        included_params wi wf params h final (rw (result_handler, found) at e) in
      (status, rw (status_in, found, there) refl, good)
]

-- The first message that is not left unfinished, among those that have come.
abbrev pub Decided : Bool → Bool → List Fields → Option Json → Bool → Type 0
Decided wi wf messages h final =
    (before : List Fields) × (m : Fields) × (later : List Fields) × (status : Fields) × (messages
      ≡ before ++ m ∷ later)
    × All (λ x. result_handler wi wf x ≡ unfinished) before
    × (status_in m ≡ some status)
    × Includes wi wf status h final

Decided-next :
    (wi wf : Bool) (m : Fields) (l : List Fields) (h : Option Json) (final : Bool) (r : Handled)
    → result_handler wi wf m ≡ r
    → (read_messages wi wf l ≡ in_block h final → Decided wi wf l h final)
    → next_message r (read_messages wi wf l) ≡ in_block h final
    → Decided wi wf (m ∷ l) h final
unfolding next_message
Decided-next wi wf m l h final (failed f) did ih e = absurd (cc e)
Decided-next wi wf m l h final key_error did ih e = absurd (cc e)
Decided-next wi wf m l h final unfinished did ih e =
    let (before, d, later, status, split, quiet, there, good) = ih e in
    (m ∷ before, d, later, status, ap (m ∷◌) split, (did, quiet), there, good)
Decided-next wi wf m l h final (included h1 final1) did ih e =
    let (status, there, good) = included_message wi wf m h final (ground arith) in
    ([], m, l, status, refl, tt, there, good)

read_messages-in_block :
    (wi wf : Bool) (messages : List Fields) (h : Option Json) (final : Bool)
    → read_messages wi wf messages ≡ in_block h final
    → Decided wi wf messages h final
unfolding read_messages next_message
read_messages-in_block wi wf [] h final e = absurd (cc e)
read_messages-in_block wi wf (m ∷ l) h final e =
    Decided-next wi wf m l h final (result_handler wi wf m) refl
      (read_messages-in_block wi wf l h final) e

-- An extrinsic is taken to be in a block by the first message that is not left unfinished: it carries
-- a status that names no failure, and the block under the key that is waited for, which is
-- `finalized`, and final, exactly when finalization is waited for.
pub watch-in_block :
    (wi wf : Bool) (messages : List Fields) (h : Option Json) (final : Bool)
    → watch wi wf messages ≡ in_block h final
    → Decided wi wf messages h final
unfolding watch
watch-in_block wi wf [] h final e = absurd (cc e)
watch-in_block wi wf (reply ∷ l) h final e = elim (Bool-cases (is_some (field_of "result" reply))) [
  | inl subscribed ↦ read_messages-in_block wi wf (reply ∷ l) h final (rw subscribed at e)
  | inr refused ↦ absurd (cc (rw refused at e))
]
