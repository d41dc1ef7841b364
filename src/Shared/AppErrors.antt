-- ===== src/Shared/AppErrors.antt =====
-- Application errors: shared/pkg/apperrors/codes.go and errors.go. `Error D` is Go's `error` in a
-- context whose domain errors are of type `D`; `wrapped` is `fmt.Errorf` with `%w`.
use wc_fixture.Base.{
  ℕ, String, Message, text, sprintf₂, Bool, true, false, Option, none, some, Arg, string_arg,
}

pub data ErrCode : Type 0 where
  not_found conflict validation unauthorized forbidden internal unavailable : ErrCode

unfoldable pub http_status : ErrCode → ℕ
http_status not_found = 404
http_status conflict = 409
http_status validation = 422
http_status unauthorized = 401
http_status forbidden = 403
http_status unavailable = 503
http_status _ = 500

abbrev pub same_code : ErrCode → ErrCode → Bool
same_code not_found not_found = true
same_code conflict conflict = true
same_code validation validation = true
same_code unauthorized unauthorized = true
same_code forbidden forbidden = true
same_code internal internal = true
same_code unavailable unavailable = true
same_code _ _ = false

pub data Error (D : Type 0) : Type 0 where
  app : ErrCode → Message → Error D
  app_caused : ErrCode → Message → Error D → Error D
  domain : D → Error D
  wrapped : Message → Error D → Error D
  plain : Message → Error D

module _ {D : Type 0} where
  abbrev pub err_not_found : String → Arg → Error D
  err_not_found resource id =
      app not_found (sprintf₂ "%s %q no encontrado" (string_arg resource) id)

  abbrev pub err_conflict : Message → Error D
  err_conflict m = app conflict m

  abbrev pub err_validation : Message → Error D
  err_validation m = app validation m

  abbrev pub err_internal : String → Error D → Error D
  err_internal s cause = app_caused internal (text s) cause

  abbrev pub err_unavailable : Message → Error D
  err_unavailable m = app unavailable m

  -- `IsCode`: the code of the first application error on the chain of causes.
  unfoldable pub is_code : Error D → ErrCode → Bool
  is_code (app c m) code = same_code c code
  is_code (app_caused c m e) code = same_code c code
  is_code (domain d) code = false
  is_code (wrapped m e) code = is_code e code
  is_code (plain m) code = false

  -- `errors.As` with a pointer to a domain error: the first one on the chain.
  unfoldable pub as_domain : Error D → Option D
  as_domain (app c m) = none
  as_domain (app_caused c m e) = as_domain e
  as_domain (domain d) = some d
  as_domain (wrapped m e) = as_domain e
  as_domain (plain m) = none
