-- ===== src/SharedChat/Client/Going.antt =====
-- What a client over shared memory makes of the text that is to end it.
use eltex_course.Chat.Client.{Client}
