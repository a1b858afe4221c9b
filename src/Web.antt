-- ===== src/Web.antt =====
-- The web application, web/src: the decisions of its modules.
pub mod Browser
pub mod Access
pub mod Api
pub mod Live
pub mod History
pub mod Fields
pub mod Forms
pub mod Settings
pub mod Editor
pub mod Wizard
pub mod Login
pub mod Theme
pub mod Calendar
pub mod Periods
pub mod Downloads
pub mod Tariffs
