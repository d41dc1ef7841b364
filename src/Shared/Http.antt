-- ===== src/Shared/Http.antt =====
-- HTTP responses and JSON bodies: response.go and decode.go of shared/pkg/httputil, and the recovery
-- from panics of shared/pkg/middleware/recover.go. `P` is what a response carries as its `data`.
use wc_fixture.Base.{
  ℕ, String, Message, text, sprintf, sprintf₂, string_arg, int_arg, Bool, true, false, Option, none,
  some, ltb, if◌then◌else◌,
}
use wc_fixture.Shared.AppErrors.{
  Error, app, app_caused, domain, wrapped, plain, ErrCode, http_status, err_validation,
}

pub data Body (P : Type 0) : Type 0 where
  payload : P → Body P
  error_body : ErrCode → Message → Body P
  plain_body : String → Body P
  no_body : Body P

pub record HttpResponse (P : Type 0) : Type 0 where
  pub status : ℕ
  pub body : Body P

-- `errors.As` with a pointer to an application error: the code and message of the first one.
unfoldable pub as_app : {D : Type 0} → Error D → Option (ErrCode × Message)
as_app (app c m) = some (c, m)
as_app (app_caused c m e) = some (c, m)
as_app (domain d) = none
as_app (wrapped m e) = as_app e
as_app (plain m) = none

module _ {P : Type 0} where
  unfoldable pub write_json : ℕ → P → HttpResponse P
  write_json status p = record { status = status; body = payload p }

  abbrev pub write_ok : P → HttpResponse P
  write_ok p = write_json 200 p

  abbrev pub write_created : P → HttpResponse P
  write_created p = write_json 201 p

  abbrev pub write_no_content : HttpResponse P
  write_no_content = record { status = 204; body = no_body }

  unfoldable pub write_error : {D : Type 0} → Error D → HttpResponse P
  write_error e = elim (as_app e) [
    | none ↦ record {
      status = 500;
      body = error_body ErrCode.internal (text "error interno del servidor");
    }
    | some (c, m) ↦ record { status = http_status c; body = error_body c m }
  ]

  -- `Recover`: what the client gets when a handler panics.
  abbrev pub recovered : HttpResponse P
  recovered = record { status = 500; body = plain_body "error interno del servidor" }

-- How `json.Decoder` fails. The text of another error is given with its length and its first 120
-- bytes.
pub data JsonError : Type 0 where
  syntax_error : ℕ → JsonError
  end_of_input unexpected_end : JsonError
  type_error : String → String → JsonError
  other_error : String → ℕ → String → JsonError

-- What the decoder makes of a body: its first value, and whether the input ends behind it.
pub data Decoded (B : Type 0) : Type 0 where
  undecoded : JsonError → Decoded B
  decoded : B → Bool → Decoded B

-- What is read from a request, or the error that refuses it.
pub data Input (D : Type 0) (B : Type 0) : Type 0 where
  read : B → Input D B
  refused : Error D → Input D B

module _ {D : Type 0} where
  unfoldable pub map_decode_error : JsonError → Error D
  map_decode_error (syntax_error at) =
      err_validation (sprintf "JSON malformado en posición %d" (int_arg at))
  map_decode_error end_of_input = err_validation (text "el cuerpo de la solicitud está vacío")
  map_decode_error unexpected_end = err_validation (text "el cuerpo de la solicitud está vacío")
  map_decode_error (type_error field expected) = err_validation (
      sprintf₂ "tipo inválido para el campo %q: se esperaba %s" (string_arg field)
        (string_arg expected))
  map_decode_error (other_error message bytes first) = err_validation (
      sprintf "error al decodificar JSON: %s"
        (string_arg (if ltb 120 bytes then first else message)))

  -- `DecodeJSON`
  unfoldable pub decode_json : {B : Type 0} → Decoded B → Input D B
  decode_json (undecoded e) = refused (map_decode_error e)
  decode_json (decoded b true) = read b
  decode_json (decoded b false) =
      refused (err_validation (text "el cuerpo debe contener un único objeto JSON"))
