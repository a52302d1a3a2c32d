-- ===== src/Auth/Permissions.antt =====
-- pkg/auth/permissions.go: permissions "action:resource" with wildcards.
pub mod Grants
use insight_collector.Prelude.{
  String, ◌≡◌, refl, Bool, true, false, ◌&&◌, List, [], ◌∷◌, ◌==◌, if◌then◌else◌,
}
use insight_collector.Text.{split}

abbrev pub action_admin : String
action_admin = "admin"

-- the tests on the lengths of both splits are the patterns
matches_parts : List String → List String → Bool
matches_parts (user_action ∷ user_resource ∷ []) (req_action ∷ req_resource ∷ []) =
    if user_action == action_admin && user_resource == req_resource
    then true
    else if user_action == req_action && user_resource == "*"
    then true
    else if user_action == "*" && user_resource == req_resource
    then true
    else false
matches_parts _ _ = false

unfoldable pub matches_permission : String → String → Bool
unfolding matches_parts
matches_permission user_perm required =
    if user_perm == required
    then true
    else if user_perm == "*:*"
    then true
    else matches_parts (split ":" user_perm) (split ":" required)

unfoldable pub has_permission : List String → String → Bool
unfolding matches_permission
has_permission [] required = false
has_permission (perm ∷ perms) required =
    if matches_permission perm required then true else has_permission perms required

admin_of_logs : has_permission ("read:ping" ∷ "admin:logs" ∷ []) "create:logs" ≡ true
unfolding has_permission split
admin_of_logs = refl

admin_of_all : has_permission ("admin:*" ∷ []) "read:logs" ≡ false
unfolding has_permission split
admin_of_all = refl
