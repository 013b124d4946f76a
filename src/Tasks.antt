-- ===== src/Tasks.antt =====
-- tasks: tasks, projects and office memos.
pub mod Objects
pub mod Permissions
pub mod Memos
pub mod Closing
pub mod Notices
pub mod Reopening
pub mod MemoNotices
mod Samples
