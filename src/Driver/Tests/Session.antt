-- ===== src/Driver/Tests/Session.antt =====
-- A board that accepts one JWT, and a client that holds an older one.
use wave_judge.Prelude.{
  ℕ, true, false, Option, none, some, Text, codes, text_eq, ok, if◌then◌else◌, ◌==◌, ◌≡◌, refl,
}
use wave_judge.Driver.Rest.Pipeline.{Method, method_get, method_post, method_patch, Net, Client}
use wave_judge.Driver.Rest.Auth.{authenticate, is_refused}
use wave_judge.Driver.Rest.Requests.{request}
use wave_judge.Driver.Rest.Session.{Admits, Answered, request-Answered, Kept, authenticate-Kept}

record Request : Type 0 where
  method : Method
  bearer : Option Text

-- 401 unless the request is part of the exchange or carries the JWT
abbrev answer_to : Method → Option Text → ℕ
answer_to method_post bearer = 200
answer_to method_patch bearer = 200
answer_to method_get none = 401
answer_to method_get (some jwt) = if text_eq jwt (codes "new") then 200 else 401

abbrev board : Net Unit Request ℕ
board = record {
  request = λ m url. record { method = m; bearer = none };
  set_path = λ path url. path;
  body = λ t r. r;
  json = λ t r. r;
  bearer_auth = λ jwt r. record r { bearer = some jwt };
  try_clone = λ r. some r;
  send = λ r w. (ok (answer_to r.method r.bearer), w);
  status = λ s. s;
  is_success = λ s. s == 200;
  challenge_info = λ s w. (ok (record { id = codes "7"; challenge = codes "c" }), w);
  authentication_info = λ s w. (ok (codes "new"), w);
  copy = λ s w. (ok tt, w);
  decode = λ t. ok t;
  encode = λ t. t;
  private_decrypt = λ t. ok t;
}

accepts_new : (m : Method) → is_refused (answer_to m (some (codes "new"))) ≡ false
unfolding is_refused text_eq
accepts_new method_get = refl
accepts_new method_post = refl
accepts_new method_patch = refl

admits : (w : Unit) → Admits board (codes "b") w
admits w = record {
  challenge_response = 200;
  challenged = w;
  posts = refl;
  challenge = record { id = codes "7"; challenge = codes "c" };
  read = w;
  reads = refl;
  data_ = codes "c";
  decodes = refl;
  plain = codes "c";
  decrypts = refl;
  auth_response = 200;
  answered = w;
  patches = refl;
  jwt = codes "new";
  admitted = w;
  issues = refl;
  accepts = λ r. (answer_to r.method (some (codes "new")), w, refl, accepts_new r.method);
}

abbrev stale : Client Unit
stale = record { jwt = some (codes "old"); world = tt }

abbrev get_request : Request
get_request = record { method = method_get; bearer = none }

request-Answered_example : Answered board (codes "b") (request board (codes "b") get_request stale)
request-Answered_example =
    request-Answered board (codes "b") admits (λ r w. (_, _, refl)) (λ r. refl) get_request stale

authenticate-Kept_example : Kept board (codes "b") (authenticate board (codes "b") true stale)
authenticate-Kept_example = authenticate-Kept board (codes "b") true stale
