-- ===== src/Telegram/Cleanup.antt =====
-- apps/worker/src/modules/telegram-service.ts: `cleanupListingTelegramMessage`, the removal of a card's
-- messages when its retention ends. What Telegram answers is an argument, `none` where it accepts.
use auto_monitor_bot.Base.{
  ◌≡◌, refl, ◌∙◌, Bool, true, false, not, ◌&&◌, ◌||◌, List, [], ◌∷◌, Option, none, some, arith,
  if◌then◌else◌, all,
}
use Prim.Native.String.{String}
use auto_monitor_bot.Telegram.Policy.{ApiError, truthy_number}

pub data CleanupError : Type 0 where
  not_configured rate_limited delete_failed clear_failed : CleanupError

-- `TelegramListingCleanupResult`: cleared, with whether messages were only emptied, or a retry.
pub data CleanupResult : Type 0 where
  cleared : Bool → CleanupResult
  retry : CleanupError → CleanupResult

-- The answers to `deleteMessage`, `editMessageText` and `editMessageCaption` for a message.
pub record Answers : Type 0 where
  pub delete : String → Option ApiError
  pub edit_text : String → Option ApiError
  pub edit_caption : String → Option ApiError

-- How the loop over the deletions ends: with the messages that are too old, or with an error.
pub data Deletions : Type 0 where
  remaining : List String → Deletions
  failed : CleanupError → Deletions

abbrev keep : Bool → String → Deletions → Deletions
keep too_old id (remaining ids) = remaining (if too_old then id ∷ ids else ids)
keep too_old id (failed e) = failed e

abbrev error_code : ApiError → CleanupError → CleanupError
error_code e other = if truthy_number e.retry_after_seconds then rate_limited else other

-- The loop that deletes the messages.
unfoldable pub delete_messages : Answers → List String → Deletions
delete_messages a [] = remaining []
delete_messages a (id ∷ ids) =
    let rest = delete_messages a ids in
    elim (a.delete id) [
      | none ↦ rest
      | some e ↦
          if e.message_gone || e.permanent_chat
          then rest
          else if not e.delete_too_old
          then failed (error_code e delete_failed)
          else keep true id rest
    ]

-- The errors that leave nothing to empty.
unfoldable pub is_tolerated : ApiError → Bool
is_tolerated e = e.not_modified || e.message_gone || e.permanent_chat || e.permanent_edit

-- The loop that empties the messages that are too old to delete.
unfoldable pub clear_messages : Answers → List String → CleanupResult
clear_messages a [] = cleared true
clear_messages a (id ∷ ids) =
    let rest = clear_messages a ids in
    elim (a.edit_text id) [
      | none ↦ rest
      | some e ↦
          if e.no_text
          then (elim (a.edit_caption id) [
            | none ↦ rest
            | some nested ↦
                if is_tolerated nested then rest else retry (error_code nested clear_failed)
          ])
          else if is_tolerated e
          then rest
          else retry (error_code e clear_failed)
    ]

-- The end of `cleanupListingTelegramMessage`, behind its first loop.
unfoldable pub finish_cleanup : Answers → Deletions → CleanupResult
finish_cleanup a (failed e) = retry e
finish_cleanup a (remaining []) = cleared false
finish_cleanup a (remaining (m ∷ ms)) = clear_messages a (m ∷ ms)

-- `cleanupListingTelegramMessage`, for the ids that `splitTelegramMessageIds` finds.
unfoldable pub cleanup_listing_telegram_message : Bool → Answers → List String → CleanupResult
cleanup_listing_telegram_message configured a [] = cleared false
cleanup_listing_telegram_message configured a (id ∷ ids) =
    if not configured then retry not_configured else finish_cleanup a (delete_messages a (id ∷ ids))

-- Telegram's reason why a message need not or cannot be emptied: it is unchanged, gone, out of reach,
-- or can no longer be edited.
abbrev is_beyond_edits : ApiError → Bool
is_beyond_edits e = e.permanent_edit || e.permanent_chat || e.message_gone || e.not_modified

-- A message's text or, where it has none, its caption was emptied, or fails with an error of the kind
-- given.
abbrev is_emptied_or : (ApiError → Bool) → Answers → String → Bool
is_emptied_or excuse a id = elim (a.edit_text id) [
  | none ↦ true
  | some e ↦
      if e.no_text
      then (elim (a.edit_caption id) [ none ↦ true | some nested ↦ excuse nested ])
      else excuse e
]

-- A message that is too old to delete is settled.
abbrev is_emptied : Answers → String → Bool
is_emptied a id = is_emptied_or is_beyond_edits a id

-- A message is dealt with: deleted, gone, out of reach, or settled where it is too old to delete.
abbrev pub is_dealt_with : Answers → String → Bool
is_dealt_with a id = elim (a.delete id) [
  | none ↦ true
  | some e ↦ e.message_gone || e.permanent_chat || (e.delete_too_old && is_emptied a id)
]

abbrev pub is_cleared : CleanupResult → Bool
is_cleared (cleared b) = true
is_cleared (retry e) = false

is_tolerated-is_beyond_edits : (e : ApiError) → is_tolerated e ≡ is_beyond_edits e
unfolding is_tolerated
is_tolerated-is_beyond_edits e = ground arith

clear_messages-is_emptied_or :
    (a : Answers) (ids : List String)
    → is_cleared (clear_messages a ids) ≡ all (λ id. is_emptied_or is_tolerated a id) ids
unfolding clear_messages
clear_messages-is_emptied_or a [] = refl
clear_messages-is_emptied_or a (id ∷ ids) =
    let rest = clear_messages-is_emptied_or a ids in ground arith

clear_messages-is_emptied :
    (a : Answers) (ids : List String)
    → is_cleared (clear_messages a ids) ≡ all (λ id. is_emptied a id) ids
clear_messages-is_emptied a ids = clear_messages-is_emptied_or a ids ∙ λ i.
    all (λ id. is_emptied_or (λ e. is_tolerated-is_beyond_edits e i) a id) ids

abbrev deletions_settled : Answers → Deletions → Bool
deletions_settled a (remaining ids) = all (λ id. is_emptied a id) ids
deletions_settled a (failed e) = false

finish_cleanup-settled :
    (a : Answers) (d : Deletions) → is_cleared (finish_cleanup a d) ≡ deletions_settled a d
unfolding finish_cleanup
finish_cleanup-settled a (failed e) = refl
finish_cleanup-settled a (remaining []) = refl
finish_cleanup-settled a (remaining (m ∷ ms)) = clear_messages-is_emptied a (m ∷ ms)

delete_messages-is_dealt_with :
    (a : Answers) (ids : List String)
    → deletions_settled a (delete_messages a ids) ≡ all (λ id. is_dealt_with a id) ids
unfolding delete_messages
delete_messages-is_dealt_with a [] = refl
delete_messages-is_dealt_with a (id ∷ ids) =
    let rest = delete_messages-is_dealt_with a ids in ground arith

-- With a bot configured, the cleanup of a card reports that it is cleared exactly when every one of
-- its messages was deleted, is gone or out of reach, or is too old to delete, and was emptied or, as
-- Telegram says, is empty already, gone, out of reach or no longer to be edited; whatever the album's
-- size and whichever of the calls fail, and else it asks for a retry.
pub cleanup_listing_telegram_message-is_dealt_with :
    (a : Answers) (ids : List String)
    → is_cleared (cleanup_listing_telegram_message true a ids) ≡ all (λ id. is_dealt_with a id) ids
unfolding cleanup_listing_telegram_message
cleanup_listing_telegram_message-is_dealt_with a [] = refl
cleanup_listing_telegram_message-is_dealt_with a (id ∷ ids) =
    finish_cleanup-settled a (delete_messages a (id ∷ ids))
    ∙ delete_messages-is_dealt_with a (id ∷ ids)
