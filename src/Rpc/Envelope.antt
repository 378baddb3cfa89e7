-- ===== src/Rpc/Envelope.antt =====
-- sifter/src/aa_sifter/rpc/envelope.py: answers and errors, and the check of the version.
use aa.Prelude.{String, Bool, true, Option, none, some, ◌==◌, if◌then◌else◌}
use Prim.Native.Char.{code}
use aa.Prelude.Text.{◌≟◌}

abbrev pub rpc_version : String
rpc_version = "1.0"

-- The codes of the errors that the service answers with.
pub data ErrorCode : Type 0 where
  invalid_params method_not_found internal_error incompatible unavailable : ErrorCode

unfoldable pub code_value : ErrorCode → String
code_value invalid_params = "-32602"
code_value method_not_found = "-32601"
code_value internal_error = "-32603"
code_value incompatible = "aa.incompatible"
code_value unavailable = "aa.unavailable"

-- `success` and `failure`, with the identifier of the request, less the `data` of an error. `J` is any
-- value of JSON.
pub data Response (J A : Type 0) : Type 0 where
  success : (request_id : Option J) → (result : A) → Response J A
  failure : (request_id : Option J) → (code : ErrorCode) → (message : String) → Response J A

abbrev pub response_id : {J A : Type 0} → Response J A → Option J
response_id (success request_id result) = request_id
response_id (failure request_id code message) = request_id

-- `text.split(".")[0]`
unfoldable pub major_part : String → String
major_part String.[] = ""
major_part (String.◌∷◌ c s) =
    let rest = major_part s in if code c == 46 then "" else String.◌∷◌ c rest

-- `is_compatible`: the `rpcVersion` that the caller names, if any.
unfoldable pub is_compatible : Option String → Bool
unfolding major_part
is_compatible none = true
is_compatible (some requested) = major_part requested ≟ major_part rpc_version
