-- ===== src/Phonebook.antt =====
-- tapi_phonebook.c, the entries of the phone book of a SIM card.
pub mod Replies
pub mod ReplyResults
pub mod Requests
pub mod Protocol
