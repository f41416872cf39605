-- ===== src/Tests/Unit.antt =====
-- The unit tests that stand in the source files, as statements of the model: what each one asserts, on
-- the inputs that it takes. A test of the source that fails would refuse the file.
mod Env
mod Settings
mod Errors
mod Handlers
mod Packages
mod Passwords
mod Roles
mod UserService
mod Sessions
