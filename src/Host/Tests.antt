-- ===== src/Host/Tests.antt =====
-- Host validation at concrete inputs.
use zerohttp.Prelude.{◌≡◌, refl, ◌↔◌, true, false, [], ◌∷◌, none, some}
use zerohttp.Prelude.Int.{pos}
use zerohttp.Text.{codes, text_eq, trim_suffix, to_lower, before}
use zerohttp.Http.{Request, pass, problem}
use zerohttp.Host.{split_host_port, is_valid_host, Config, handle, config_panics}
use zerohttp.Host.Laws.{Welcome, handle_iff}

splits :
    (split_host_port (codes "a.example:80") ≡ some (codes "a.example", codes "80"))
    × (split_host_port (codes "[::1]:80") ≡ some (codes "::1", codes "80"))
    × (split_host_port (codes "a.example") ≡ none)
    × (split_host_port (codes "::1") ≡ none)
unfolding split_host_port before
splits = (refl, refl, refl, refl)

subdomains :
    (is_valid_host (codes "API.a.example.") (codes "a.example" ∷ []) true ≡ true)
    × (is_valid_host (codes "evila.example") (codes "a.example" ∷ []) true ≡ false)
unfolding is_valid_host trim_suffix to_lower text_eq
subdomains = (refl, refl)

standard_port_panics :
    config_panics (record {
      allowed_hosts = [];
      allow_subdomains = false;
      strict_port = true;
      port = codes "443";
      status_code = 400;
      message = [];
      excluded_paths = [];
      included_paths = [];
    })
    ≡ true
unfolding config_panics text_eq
standard_port_panics = refl

abbrev config : Config
config = record {
  allowed_hosts = codes "a.example" ∷ [];
  allow_subdomains = true;
  strict_port = true;
  port = codes "8080";
  status_code = 400;
  message = codes "Invalid Host header";
  excluded_paths = [];
  included_paths = [];
}

abbrev ask : Request
ask = record {
  method = codes "GET";
  path = codes "/";
  host = codes "api.a.example:8080";
  headers = [];
  content_length = pos 0;
}

handle_iff_example :
    ((handle config ask [] ≡ pass ask []) ↔ Welcome config ask)
    × ((handle config ask [] ≡ problem 400 (codes "Invalid Host header") [])
        ↔ (¬ Welcome config ask))
handle_iff_example = handle_iff config ask []
