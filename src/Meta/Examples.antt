-- ===== src/Meta/Examples.antt =====
-- A request behind one trusted proxy.
use unirate.Prelude.{◌≡◌, refl, false, if◌then◌else◌, some, [], ◌∷◌, ◌++◌, arith}
use unirate.Prelude.Text.{Bytes, codes, ◌==◌, to_lower, has_byte, trim_space}
use unirate.Meta.{
  Config, Request, Net, default_config, extract_biz, checked, split_slash, trim_prefix_slash,
  is_empty, biz_bytes, biz_byte, split_comma, extract_ip, real_ip, or_else, forwarded_ip, hop,
  hop_ip,
}
use unirate.Meta.Biz.{IsBiz, extract_biz-extract_biz}
use unirate.Meta.ClientIp.{extract_ip-forged}

pay_path : extract_biz (codes "/Pay-2/v1") ≡ some (codes "pay-2", codes "/v1")
unfolding extract_biz checked split_slash trim_prefix_slash is_empty biz_bytes biz_byte to_lower
pay_path = refl

extract_biz-extract_biz_example :
    IsBiz (codes "pay-2")
    × (has_byte b'|' (codes "pay-2") ≡ false)
    × ((tail : Bytes) × (codes "/v1" ≡ b'/' ∷ tail))
    × (extract_biz (b'/' ∷ (codes "pay-2" ++ codes "/v1")) ≡ some (codes "pay-2", codes "/v1"))
extract_biz-extract_biz_example =
    extract_biz-extract_biz (codes "/Pay-2/v1") (codes "pay-2") (codes "/v1") pay_path

abbrev literal_net : Net
literal_net = record { parse_ip = λ s. some s; host_of = λ s. some s }

abbrev one_hop : Config
one_hop = record default_config { trusted_proxy_hops = 1 }

abbrev sent_by : Bytes → Request
sent_by claims = record {
  path = codes "/pay/v1";
  method = codes "GET";
  remote_addr = codes "10.0.0.1";
  get = λ h. if h == codes "X-Forwarded-For" then claims ++ codes ",3.3.3.3" else [];
}

believed : extract_ip literal_net one_hop (sent_by (codes "1.1.1.1")) ≡ codes "3.3.3.3"
unfolding extract_ip real_ip or_else forwarded_ip hop hop_ip split_comma is_empty default_config
    ◌==◌ trim_space
believed = refl

extract_ip-forged_example :
    extract_ip literal_net one_hop (sent_by (codes "1.1.1.1"))
    ≡ extract_ip literal_net one_hop (sent_by (codes "2.2.2.2, 7.7.7.7"))
unfolding ◌==◌ default_config split_comma
extract_ip-forged_example =
    extract_ip-forged literal_net one_hop (sent_by (codes "1.1.1.1"))
      (sent_by (codes "2.2.2.2, 7.7.7.7")) (codes "1.1.1.1") (codes "2.2.2.2, 7.7.7.7")
      (codes "3.3.3.3") refl refl (omega arith) refl refl
