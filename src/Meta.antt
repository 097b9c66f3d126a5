-- ===== src/Meta.antt =====
-- internal/meta/extract.go: what the gateway reads from a request. Texts are bytes, and letters and
-- white space are those of ASCII. The headers are what http.Header.Get gives: the first line of a name,
-- or the empty text. net.ParseIP with its String, and net.SplitHostPort, are parameters.
pub mod Biz
pub mod ClientIp
mod Examples
use unirate.Prelude.{
  ℕ, ◌-◌, Bool, true, false, not, ◌&&◌, ◌||◌, ◌==◌ as nat_eq, if◌then◌else◌, Option, none, some,
  List, [], ◌∷◌, leb, ltb, length, get_elem?, take, drop,
}
use unirate.Prelude.Text.{Bytes, codes, ◌==◌, to_lower, trim_space}

pub is_empty : Bytes → Bool
is_empty [] = true
is_empty (c ∷ s) = false

-- strings.TrimPrefix(path, "/")
pub trim_prefix_slash : Bytes → Bytes
trim_prefix_slash [] = []
trim_prefix_slash (c ∷ s) = if nat_eq c b'/' then s else c ∷ s

-- The text before the first slash, and the text from it on; without a slash that is "/".
pub split_slash : Bytes → Bytes × Bytes
split_slash [] = ([], codes "/")
split_slash (c ∷ s) =
    let (before, rest) = split_slash s in if nat_eq c b'/' then ([], c ∷ s) else (c ∷ before, rest)

biz_byte : ℕ → Bool
biz_byte c = (leb b'a' c && leb c b'z') || ((leb b'0' c && leb c b'9') || nat_eq c b'-')

pub biz_bytes : Bytes → Bool
unfolding biz_byte
biz_bytes [] = true
biz_bytes (c ∷ s) = biz_byte c && biz_bytes s

checked : Bytes → Bytes → Option (Bytes × Bytes)
unfolding biz_bytes is_empty
checked biz rest =
    if is_empty biz
    then none
    else if not (biz_bytes (to_lower biz))
    then none
    else if ltb 64 (length (to_lower biz))
    then none
    else some (to_lower biz, rest)

-- ExtractBiz: the business and the rest of the path, or ErrInvalidBiz.
pub extract_biz : Bytes → Option (Bytes × Bytes)
unfolding checked split_slash trim_prefix_slash is_empty
extract_biz path =
    let p = trim_prefix_slash path in
    let (biz, rest) = split_slash p in if is_empty p then none else checked biz rest

-- strings.Split(s, ",")
pub split_comma : Bytes → List Bytes
split_comma [] = [] ∷ []
split_comma (c ∷ s) = elim (split_comma s) [
  | [] ↦ []
  | (part ∷ parts) ↦ if nat_eq c b',' then [] ∷ part ∷ parts else (c ∷ part) ∷ parts
]

pub record Config : Type 0 where
  pub token_headers : List Bytes
  pub token_prefixes : List Bytes
  pub trusted_proxy_hops : ℕ
  pub real_ip_header : Bytes

pub default_config : Config
default_config = record {
  token_headers = codes "Authorization" ∷ codes "X-Api-Key" ∷ [];
  token_prefixes = codes "Bearer " ∷ codes "Token " ∷ [];
  trusted_proxy_hops = 0;
  real_ip_header = [];
}

pub record Request : Type 0 where
  pub path : Bytes
  pub method : Bytes
  pub remote_addr : Bytes
  pub get : Bytes → Bytes

pub record RequestMeta : Type 0 where
  pub biz : Bytes
  pub path : Bytes
  pub raw_token : Bytes
  pub ip : Bytes
  pub method : Bytes

-- The first prefix that fits is cut off, once.
strip_token : List Bytes → Bytes → Bytes
strip_token [] v = v
strip_token (p ∷ ps) v =
    let later = strip_token ps v in
    if leb (length p) (length v) && to_lower (take (length p) v) == to_lower p
    then trim_space (drop (length p) v)
    else later

-- The loop over the headers.
first_token : List Bytes → List Bytes → (Bytes → Bytes) → Bytes
unfolding strip_token is_empty
first_token [] prefixes get = []
first_token (h ∷ hs) prefixes get =
    let later = first_token hs prefixes get in
    let v = trim_space (get h) in
    if is_empty v
    then later
    else if is_empty (strip_token prefixes v)
    then later
    else strip_token prefixes v

pub extract_token : Config → Request → Bytes
unfolding first_token
extract_token c r = first_token c.token_headers c.token_prefixes r.get

-- What the gateway uses of the package net.
pub record Net : Type 0 where
  pub parse_ip : Bytes → Option Bytes
  pub host_of : Bytes → Option Bytes

or_else : Option Bytes → Bytes → Bytes
or_else none other = other
or_else (some ip) other = ip

module _ (net : Net) where
  -- The value that stands `hops` from the right.
  hop : ℕ → List Bytes → Option Bytes
  hop hops parts =
      let idx = length parts - hops in
      if leb hops (length parts) && ltb idx (length parts) then get_elem? parts idx else none

  hop_ip : Option Bytes → Option Bytes
  hop_ip none = none
  hop_ip (some part) = net.parse_ip (trim_space part)

  pub forwarded_ip : Config → Request → Option Bytes
  unfolding hop hop_ip is_empty split_comma
  forwarded_ip c r =
      let xff = r.get (codes "X-Forwarded-For") in
      if ltb 0 c.trusted_proxy_hops && not (is_empty xff)
      then hop_ip (hop c.trusted_proxy_hops (split_comma xff))
      else none

  real_ip : Config → Request → Option Bytes
  unfolding is_empty
  real_ip c r =
      let v = trim_space (r.get c.real_ip_header) in
      if is_empty c.real_ip_header || is_empty v then none else net.parse_ip v

  pub extract_ip : Config → Request → Bytes
  unfolding real_ip or_else forwarded_ip
  extract_ip c r =
      or_else (real_ip c r)
        (or_else (forwarded_ip c r) (or_else (net.host_of r.remote_addr) r.remote_addr))

  -- Extract: the data of the request, or ErrInvalidBiz.
  pub extract : Config → Request → Option RequestMeta
  unfolding extract_biz extract_token extract_ip
  extract c r = elim (extract_biz r.path) [
    | none ↦ none
    | some (biz, rest) ↦ some (record {
      biz = biz;
      path = r.path;
      raw_token = extract_token c r;
      ip = extract_ip c r;
      method = r.method;
    })
  ]
