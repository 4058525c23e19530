-- ===== src/Memory/Hidden.antt =====
-- Scopes whose visibility is not spelled as the constants are.
use qemu_agent.Common.{◌≡◌, ◌≢◌, false, arith, ok}
use qemu_agent.Text.{Text, is_empty, trim_space}
use qemu_agent.Memory.{
  Scope, Visibility, visibility_private, visibility_workspace, parse_visibility, validate_scope,
  visible_to, writable_by,
}

-- A scope of a named workspace, whose visibility ParseVisibility reads but which is neither constant
-- as it stands, is accepted by validateScope whatever its user, is visible to nobody, and nobody may
-- write or delete its item.
pub validate_scope-hidden :
    (scope : Scope) (read : Visibility)
    → is_empty (trim_space scope.workspace_id) ≡ false
    → parse_visibility scope.visibility ≡ ok read
    → scope.visibility ≢ visibility_private
    → scope.visibility ≢ visibility_workspace
    → (validate_scope scope ≡ ok tt)
      × ((workspace_id user_id : Text) → visible_to scope workspace_id user_id ≡ false)
      × ((requested : Scope) → writable_by scope requested ≡ false)
unfolding validate_scope visible_to writable_by
validate_scope-hidden scope read named parsed not_private not_shared =
    (ground arith, λ workspace_id user_id. ground arith, λ requested. ground arith)
