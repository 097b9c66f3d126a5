-- ===== src/Admin/Server/Examples.antt =====
-- Requests to an admin API that has neither its database nor its store.
use unirate.Prelude.{
  ℕ, ◌≡◌, ◌≢◌, ◌⊎◌, inl, refl, Bool, true, false, if◌then◌else◌, length, ap, arith, none, [], ◌++◌,
}
use unirate.Prelude.Text.{Bytes, codes, ◌==◌, trim_space, trim_left, to_lower}
use unirate.Meta.{Request}
use unirate.Admin.{Response, write_json}
use unirate.Admin.Token.{validate_token-IsStrong}
use unirate.Admin.Token.Examples.{strong_token, padded_token, strong_accepted, padded_accepted}
use unirate.Upstream.Host.{equal_fold}
use unirate.Admin.Server.{
  Server, Net, Options, started, new_server, parse_allow, with_allow, Endpoints, HandlerFunc, auth,
  handler, pattern_of, extract_token, bearer, cut_space, root,
}
use unirate.Admin.Server.Guards.{refusal, handler-refusal}
use unirate.Admin.Server.Login.{auth-new_server, auth-untrimmed}

abbrev plain_net : Net
plain_net = record {
  sum256 = λ s. s;
  parse_cidr = λ s. none;
  parse_ip = λ s. none;
  split_host_port = λ s. none;
}

abbrev options : Bytes → Options
options tok = record { token = tok; allow_cidrs = [] }

abbrev server_of : Bytes → Bool → Server
server_of hash has_db = record {
  token_hash = hash;
  allow = [];
  has_store = false;
  has_db = has_db;
  has_metrics = false;
}

abbrev authorization : Bytes → Bytes → Bytes
authorization sent h = if h == codes "Authorization" then sent else []

abbrev get_with : Bytes → Bytes → Request
get_with path auth = record {
  path = path;
  method = codes "GET";
  remote_addr = codes "10.0.0.1:1";
  get = authorization auth;
}

abbrev counting : HandlerFunc ℕ
counting n r = (n, write_json 200 [])

abbrev endpoints : Endpoints ℕ
endpoints = record {
  handle_bizs = counting;
  handle_biz_item = counting;
  handle_reload = counting;
  handle_snapshot = counting;
  handle_audit = counting;
  handle_validate = counting;
  handle_policy = counting;
  handle_policy_validate = counting;
  handle_metrics = counting;
  console = none;
}

abbrev guess : Request
guess = get_with (codes "/admin/bizs") (codes "Bearer guess")

guess_is_api : pattern_of guess.path ≢ root
unfolding pattern_of ◌==◌
guess_is_api e = cc

wrong_guess : (extract_token guess == strong_token) ≡ false
unfolding extract_token ◌==◌ trim_space trim_left bearer cut_space equal_fold to_lower
wrong_guess = refl

handler-refusal_example :
    (a : Response) × (handler plain_net (server_of strong_token false) endpoints 3 guess ≡ (3, a))
    × (handler plain_net (server_of strong_token true) endpoints 5 guess ≡ (5, a))
    × ((a.status ≡ 401) ⊎ (a.status ≡ 403))
handler-refusal_example =
    handler-refusal plain_net (server_of strong_token false) (server_of strong_token true) endpoints
      endpoints 3 5 guess guess_is_api refl wrong_guess wrong_guess

new_strong :
    new_server plain_net (options strong_token) false false false
    ≡ started (server_of strong_token false)
unfolding new_server with_allow parse_allow
new_strong = rw (strong_accepted, new_server) refl

auth-new_server_example :
    auth plain_net
      (server_of strong_token false)
      counting
      3
      (get_with (codes "/admin/bizs") (codes "Bearer " ++ strong_token))
    ≡ (3, write_json 200 [])
unfolding trim_space trim_left ◌==◌
auth-new_server_example =
    auth-new_server plain_net (options strong_token) false false false
      (server_of strong_token false) counting 3
      (get_with (codes "/admin/bizs") (codes "Bearer " ++ strong_token)) new_strong refl refl
      (inl refl)

abbrev padded_request : Request
padded_request = get_with (codes "/admin/bizs") (codes "Bearer " ++ padded_token)

auth-untrimmed_example :
    (srv : Server) × (new_server plain_net (options padded_token) false false false ≡ started srv)
    × (auth plain_net srv counting 3 padded_request
        ≡ (3, refusal plain_net srv.allow padded_request))
unfolding trim_space trim_left parse_allow
auth-untrimmed_example =
    auth-untrimmed plain_net (options padded_token) false false false counting 3 padded_request
      ((validate_token-IsStrong padded_token).0 padded_accepted) refl
      (λ e. omega (arith, ap (λ (l : Bytes). length l) e)) (λ e. e)
