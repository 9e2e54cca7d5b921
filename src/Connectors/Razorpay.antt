-- ===== src/Connectors/Razorpay.antt =====
-- connectors/src/data_connectors/sources/razorpay: the two connectors and the loop over the pages
-- of the API, which both write in the same words.
pub mod Pages
pub mod Complete
pub mod Yields
pub mod Orders
pub mod Customers
pub mod Typing
