-- ===== src/Slash/Tests.antt =====
-- Trailing slashes at concrete inputs.
use zerohttp.Prelude.{◌≡◌, refl, false, [], arith}
use zerohttp.Prelude.Int.{pos}
use zerohttp.Text.{Text, codes, text_eq, has_suffix, trim_suffix}
use zerohttp.Http.{Request, pass, redirect}
use zerohttp.Slash.{redirect_action, Config, handle, new_path}
use zerohttp.Slash.Laws.{IsSettled, follow, follow-IsSettled}

abbrev config : Config
config = record { action = redirect_action; prefer_trailing_slash = false; redirect_code = 301 }

abbrev ask : Request
ask = record {
  method = codes "GET";
  path = codes "/docs/";
  host = [];
  headers = [];
  content_length = pos 0;
}

redirected : handle config ask [] ≡ redirect 301 (codes "/docs") []
unfolding handle new_path text_eq has_suffix trim_suffix
redirected = refl

abbrev asked : Request
asked = record ask { path = codes "/a//" }

follow-IsSettled_example :
    (path : Text) × (follow 4 config asked [] ≡ pass (record asked { path = path }) [])
    × IsSettled false path
follow-IsSettled_example = follow-IsSettled 4 config asked [] refl (omega arith)

followed : follow 4 config asked [] ≡ pass (record asked { path = codes "/a" }) []
unfolding follow handle new_path text_eq has_suffix trim_suffix
followed = refl
