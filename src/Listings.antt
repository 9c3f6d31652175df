-- ===== src/Listings.antt =====
-- apps/api/src/common: how the lists of the API are cut into pages.
pub mod Pagination
mod Examples
