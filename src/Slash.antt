-- ===== src/Slash.antt =====
-- middleware/trailingslash/trailing_slash.go: the handler of `New`. A redirect is given by its path;
-- the rest of the URL is the request's. An action that is none of the three passes the request on.
pub mod Laws
pub mod Tests
use zerohttp.Prelude.{ℕ, Bool, true, false, not, ◌&&◌, ◌++◌, Option, none, some, if◌then◌else◌}
use zerohttp.Text.{Text, codes, text_eq, has_suffix, trim_suffix}
use zerohttp.Http.{Headers, Request, Outcome, pass, redirect}

pub data Action : Type 0 where
  redirect_action strip_action append_action other_action : Action

pub record Config : Type 0 where
  pub action : Action
  pub prefer_trailing_slash : Bool
  pub redirect_code : ℕ

abbrev pub slash : Text
slash = codes "/"

-- `needsChange` and `newPath`: the corrected path, if the path needs a change.
unfoldable pub new_path : Bool → Text → Option Text
new_path prefer path =
    if prefer && not (has_suffix path slash)
    then some (path ++ slash)
    else if not prefer && has_suffix path slash
    then some (trim_suffix path slash)
    else none

module _ (c : Config) where
  -- The `switch` over the action, for a path that needs a change.
  unfoldable pub act : Action → Request → Text → Headers → Outcome
  act redirect_action r corrected w = redirect c.redirect_code corrected w
  act strip_action r corrected w =
      if has_suffix r.path slash
      then pass (record r { path = trim_suffix r.path slash }) w
      else pass r w
  act append_action r corrected w =
      if has_suffix r.path slash then pass r w else pass (record r { path = r.path ++ slash }) w
  act other_action r corrected w = pass r w

  unfoldable pub handle : Request → Headers → Outcome
  unfolding act
  handle r w =
      if text_eq r.path slash then pass r w else elim (new_path c.prefer_trailing_slash r.path) [
        | none ↦ pass r w
        | some corrected ↦ act c.action r corrected w
      ]
