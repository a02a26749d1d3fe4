-- ===== src/Cgi.antt =====
-- src/CgiService.cpp: one request of the web server.
pub mod Body
pub mod Visitor
pub mod Request
pub mod Expected
pub mod Serving
pub mod Printed
pub mod Replies
pub mod Answers
pub mod Leak
pub mod Serve
pub mod Loop
pub mod Threads
pub mod Open
pub mod Sample
mod Tests
