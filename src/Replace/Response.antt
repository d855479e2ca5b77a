-- ===== src/Replace/Response.antt =====
-- What a replace answers: `blockReplaceNodeCliFormatResponse` (rpc/block_replace.c), with
-- `blockFormatErrorResponse` and `blockStr2arrayAddToJsonObj` (rpc/block_svc_routines.c). The printer of JSON
-- objects is a library; an object is here the list of its members.
use gluster_block.Prelude.{
  Bool, true, false, ◌&&◌, ◌||◌, not, Option, none, some, List, [], ◌∷◌, ◌++◌, if◌then◌else◌, ◌==◌,
  ℤ, pos, negsuc, minus_one, is_zero, int_eq,
}
use gluster_block.Text.{Text, codes}
use gluster_block.Remote.{op_skipped}
use gluster_block.Replace.{RemoteResp, ReplaceResp, ReplaceCli}

pub data Json : Type 0 where
  str : Text → Json
  int : ℤ → Json
  arr : List Text → Json

abbrev pub Object : Type 0
Object = List (Text × Json)

pub data Out : Type 0 where
  plain : Text → Out
  json : Object → Out

-- `blockResponse`
pub record Response : Type 0 where
  pub exit : ℤ
  pub out : Out

-- `GB_JSON_OBJ_TO_STR(x)`, which takes NULL for ""
abbrev pub to_str : Option Text → Json
to_str none = str []
to_str (some t) = str t

-- `%s`
abbrev pub or_null : Option Text → Text
or_null none = codes "(null)"
or_null (some t) = t

-- strtok(s, " ") until NULL; `tok` is the token so far.
abbrev pub end_token : Text → List Text → List Text
end_token [] rest = rest
end_token (c ∷ tok) rest = (c ∷ tok) ∷ rest

unfoldable pub tokens_from : Text → Text → List Text
tokens_from tok [] = end_token tok []
tokens_from tok (c ∷ s) =
    if c == b' ' then end_token tok (tokens_from [] s) else tokens_from (tok ++ c ∷ []) s

unfoldable pub tokens : Text → List Text
unfolding tokens_from
tokens s = tokens_from [] s

-- blockStr2arrayAddToJsonObj
unfoldable pub str2array : Text → Option Text → Object
unfolding tokens
str2array label none = []
str2array label (some s) = (label, arr (tokens s)) ∷ []

-- blockFormatErrorResponse
unfoldable pub format_error : (json_resp : Bool) → ℤ → Text → Response
format_error true err_code msg = record {
  exit = err_code;
  out = json (
      (codes "RESULT", str (codes "FAIL"))
      ∷ (codes "errCode", int err_code)
      ∷ (codes "errMsg", str msg)
      ∷ []);
}
format_error false err_code msg = record {
  exit = err_code;
  out = plain (msg ++ codes "\nRESULT:FAIL\n");
}

abbrev pub is_skip : ℤ → Bool
is_skip s = int_eq s op_skipped

-- The word for a step, and the field that goes with it.
pub data Step : Type 0 where
  skipped failed success : Step

step_of : ℤ → Step
step_of s = if is_skip s then skipped else if is_zero s then success else failed

-- The member or the line of the step that creates.
pub create_json : RemoteResp → Object
unfolding step_of
create_json r = elim (step_of r.status) [
  | skipped ↦ (codes "CREATE SKIPPED", to_str r.skipped) ∷ []
  | failed ↦ (codes "CREATE FAILED", to_str r.attempt) ∷ []
  | success ↦ (codes "CREATE SUCCESS", to_str r.success) ∷ []
]

pub create_text : RemoteResp → Text
unfolding step_of
create_text r = elim (step_of r.status) [
  | skipped ↦ codes "CREATE SKIPPED: " ++ (or_null r.skipped ++ codes "\n")
  | failed ↦ codes "CREATE FAILED: " ++ (or_null r.attempt ++ codes "\n")
  | success ↦ codes "CREATE SUCCESS: " ++ (or_null r.success ++ codes "\n")
]

pub delete_json : (force : Bool) → RemoteResp → Object
unfolding step_of
delete_json force r = elim (step_of r.status) [
  | skipped ↦ (codes "DELETE SKIPPED", to_str r.skipped) ∷ []
  | failed ↦
      (if force then codes "DELETE FAILED (ignored)" else codes "DELETE FAILED", to_str r.attempt)
      ∷ []
  | success ↦ (codes "DELETE SUCCESS", to_str r.success) ∷ []
]

pub delete_text : (force : Bool) → RemoteResp → Text
unfolding step_of
delete_text force r = elim (step_of r.status) [
  | skipped ↦ codes "DELETE SKIPPED: " ++ (or_null r.skipped ++ codes "\n")
  | failed ↦
      (if force then codes "DELETE FAILED (ignored): " else codes "DELETE FAILED: ")
      ++ (or_null r.attempt ++ codes "\n")
  | success ↦ codes "DELETE SUCCESS: " ++ (or_null r.success ++ codes "\n")
]

-- "mimic success": in JSON a delete that failed counts as done, in plain text with force only.
unfoldable pub mimic : Bool → RemoteResp → ℤ
mimic always r =
    if not (is_skip r.status) && (always && not (is_zero r.status)) then pos 0 else r.status

pub portal_json : RemoteResp → Object
portal_json r =
    if is_skip r.status
    then str2array (codes "REPLACE PORTAL SKIPPED ON") r.skipped
    else str2array (codes "REPLACE PORTAL FAILED ON") r.attempt
      ++ str2array (codes "REPLACE PORTAL SUCCESS ON") r.success

abbrev line_if : Text → Option Text → Text
line_if label none = []
line_if label (some t) = label ++ (t ++ codes "\n")

pub portal_text : RemoteResp → Text
portal_text r =
    if is_skip r.status
    then codes "REPLACE PORTAL SKIPPED ON: " ++ (or_null r.skipped ++ codes "\n")
    else line_if (codes "REPLACE PORTAL FAILED ON: ") r.attempt
      ++ line_if (codes "REPLACE PORTAL SUCCESS ON: ") r.success

abbrev pub is_fine : ℤ → Bool
is_fine s = is_skip s || is_zero s

-- The word behind RESULT.
unfoldable pub result_word : (dop_status : ℤ) → ReplaceResp → Text
result_word dop_status r =
    if is_fine r.cop.status && (is_fine dop_status && is_fine r.rop.status)
    then codes "SUCCESS"
    else codes "FAIL"

abbrev in_use_msg : Text
in_use_msg = codes "Given new-node is already in-use with this block, use other node"

-- The members behind NAME.
unfoldable pub members : ReplaceResp → Object
unfolding create_json delete_json mimic portal_json result_word
members r =
    if is_skip r.status
    then (codes "RESULT", str (codes "SKIPPED")) ∷ []
    else if int_eq r.status minus_one
    then (codes "RESULT", str (codes "FAIL"))
      ∷ (codes "errCode", int minus_one)
      ∷ (codes "errMsg", str in_use_msg)
      ∷ []
    else create_json r.cop
      ++ (delete_json r.force r.dop
          ++ (portal_json r.rop ++ (codes "RESULT", str (result_word (mimic true r.dop) r)) ∷ []))

-- The lines behind NAME.
unfoldable pub lines : ReplaceResp → Text
unfolding create_text delete_text mimic portal_text result_word
lines r =
    if is_skip r.status
    then codes "RESULT: SKIPPED\n"
    else if int_eq r.status minus_one
    then codes "errMsg:" ++ (in_use_msg ++ codes "\nRESULT: FAIL\n")
    else create_text r.cop
      ++ (delete_text r.force r.dop
          ++ (portal_text r.rop
              ++ (codes "RESULT: " ++ (result_word (mimic r.force r.dop) r ++ codes "\n"))))

abbrev default_errmsg : Text
default_errmsg = codes "Operation failed, please check the log file to find the reason."

-- A negative code becomes GB_DEFAULT_ERRCODE.
abbrev pub exit_of : ℤ → ℤ
exit_of (pos n) = pos n
exit_of (negsuc n) = pos 255

-- blockReplaceNodeCliFormatResponse
unfoldable pub format_response :
    (json_resp : Bool) → ReplaceCli → ℤ → (err_msg : Option Text) → Option ReplaceResp → Response
unfolding format_error members lines
format_response js cli err_code (some msg) reply = format_error js (exit_of err_code) msg
format_response js cli err_code none none = format_error js (exit_of err_code) default_errmsg
format_response true cli err_code none (some r) = record {
  exit = exit_of err_code;
  out = json ((codes "NAME", str cli.block_name) ∷ members r);
}
format_response false cli err_code none (some r) = record {
  exit = exit_of err_code;
  out = plain (codes "NAME: " ++ (cli.block_name ++ (codes "\n" ++ (lines r ++ codes "\n"))));
}
