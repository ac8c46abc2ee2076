-- ===== src/User.antt =====
-- The `DatabaseUser` resource: controllers/databaseuser_controller.go and `PermissionListEqual` of
-- api/v1alpha1/databaseuser_types.go. A function that writes to `loop.instance` takes the instance
-- and returns it; `loop.secret` is an `Option`, and `none` is read as a nil pointer.
pub mod Examples
pub mod Statements
pub mod Safety
pub mod Grants
pub mod Details
pub mod Lifecycle
pub mod Secrets
pub mod Controller
