-- ===== src/Examples/Register.antt =====
-- registerWithSidecar of examples/sidecar/server/main.go, and its call answered by handleHTTPRegister
-- of a sidecar.
use nats_grpc.Base.{ℕ, String, Option, none, some, nat_eq, if◌then◌else◌}
use nats_grpc.Base.Text.{◌+++◌}
use nats_grpc.Wire.{Error, eof, other, Result, ok, err}
use nats_grpc.Sidecar.Admin.{Registering, rejected, dropped, held}

-- The response: the status, the start of the body, the first line or the error of reading it, and the
-- error of draining the rest.
pub record HttpResponse : Type 0 where
  pub status_code : ℕ
  pub body : String
  pub first : Result String
  pub drained : Option Error

-- `show` writes a number, `text` is err.Error(), `parse` reads the nid of the JSON line
module _ (show : ℕ → String) (text : Error → String) (parse : String → Result String) where
  -- io.Copy, and io.EOF where it ends without an error
  unfoldable pub drain : Option Error → Error
  drain (some e) = e
  drain none = eof

  unfoldable pub parse_first : Result String → HttpResponse → Error
  parse_first (err e) r = other ("parse initial response: " +++ text e)
  parse_first (ok nid) r = drain r.drained

  unfoldable pub read_first : Result String → HttpResponse → Error
  read_first (err e) r = other ("read initial response: " +++ text e)
  read_first (ok line) r = parse_first (parse line) r

  unfoldable pub on_http_response : HttpResponse → Error
  on_http_response r =
      if nat_eq r.status_code 200
      then read_first r.first r
      else other ("register: HTTP " +++ show r.status_code +++ ": " +++ r.body)

  -- It never returns nil. `body` is the result of json.Marshal, `new_request` the error of
  -- http.NewRequestWithContext, and `post` what client.Do gives.
  unfoldable pub register_with_sidecar :
      Result String → Option Error → (String → Result HttpResponse) → Error
  register_with_sidecar (err e) new_request post = e
  register_with_sidecar (ok body) (some e) post = e
  register_with_sidecar (ok body) none post = elim (post body) [
    | err e ↦ e
    | ok r ↦ on_http_response r
  ]

  -- What the handler of a sidecar sends: an error in JSON, or the line with its nid, and then
  -- nothing until the connection ends with `ending`.
  abbrev pub answer :
      (String → String) → (String → String) → String → Option Error → Registering → HttpResponse
  answer error_json nid_json nid ending (rejected status message begun rs) = record {
    status_code = status;
    body = error_json message;
    first = err eof;
    drained = none;
  }
  answer error_json nid_json nid ending (dropped r rs) = record {
    status_code = 200;
    body = "";
    first = err eof;
    drained = none;
  }
  answer error_json nid_json nid ending (held r rs) = record {
    status_code = 200;
    body = "";
    first = ok (nid_json nid);
    drained = ending;
  }
