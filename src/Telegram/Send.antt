-- ===== src/Telegram/Send.antt =====
-- apps/worker/src/modules/telegram-service.ts: the calls of the Bot API for one card, with their
-- fallbacks, and the suppression of a blocked chat. What Telegram answers to a call is an argument.
use auto_monitor_bot.Base.{
  refl, sym, if_cases, ◌≤◌, ◌≡◌, Bool, true, false, not, ◌&&◌, ◌||◌, List, [], ◌∷◌, Option, none,
  some, arith, leb, ◌==◌, if◌then◌else◌, length, take, filter, count_by, or_else,
}
use Prim.Native.String.{String}
use auto_monitor_bot.Telegram.Policy.{ApiError, truthy_number}

-- `TelegramSendKind`.
pub data SendKind : Type 0 where
  text_card photo_card album_card : SendKind

-- What a call answers: the ids of the messages, or an error.
pub data Reply : Type 0 where
  accepted : String → Reply
  refused : ApiError → Reply

pub data ApiCall : Type 0 where
  send_message send_photo send_media_group : ApiCall

-- `describeTelegramSend`; whether a photo's address can be sent is decided by an expression.
unfoldable pub describe_telegram_send : (String → Bool) → List String → SendKind × List String
describe_telegram_send sendable photo_urls =
    let photos = take 10 (filter sendable photo_urls) in
    if leb 2 (length photos)
    then (album_card, photos)
    else if length photos == 1
    then (photo_card, photos)
    else (text_card, [])

-- `isTelegramMediaRejected` without a `retry_after`.
unfoldable pub is_downgradable : ApiError → Bool
is_downgradable e = e.media_rejected && not (truthy_number e.retry_after_seconds)

abbrev pub send_text : (ApiCall → Reply) → List ApiCall × Reply
send_text reply = (send_message ∷ [], reply send_message)

-- A call, with what follows where its media are refused.
unfoldable pub try_media : ApiCall → Reply → List ApiCall × Reply → List ApiCall × Reply
try_media call (accepted ids) rest = (call ∷ [], accepted ids)
try_media call (refused e) rest =
    if is_downgradable e then (call ∷ rest.0, rest.1) else (call ∷ [], refused e)

abbrev pub send_single : (ApiCall → Reply) → List ApiCall × Reply
send_single reply = try_media send_photo (reply send_photo) (send_text reply)

-- `sendListingCard`: the calls that it makes, in their order, and how it ends.
unfoldable pub send_listing_card : SendKind → (ApiCall → Reply) → List ApiCall × Reply
send_listing_card text_card reply = send_text reply
send_listing_card photo_card reply = send_single reply
send_listing_card album_card reply =
    try_media send_media_group (reply send_media_group) (send_single reply)

abbrev pub is_accepted : Reply → Bool
is_accepted (accepted ids) = true
is_accepted (refused e) = false

-- Telegram rejected the media of a call, and asked for no pause.
abbrev pub IsMediaRefused : Reply → Type 0
IsMediaRefused r =
    (e : ApiError) × (r ≡ refused e)
    × (e.media_rejected ≡ true)
    × (truthy_number e.retry_after_seconds ≡ false)

-- Calls of which the last gives the reply, and each before it was refused for its media.
abbrev pub IsTrail : (ApiCall → Reply) → List ApiCall → Reply → Type 0
IsTrail reply [] r = false ≡ true
IsTrail reply (c ∷ []) r = r ≡ reply c
IsTrail reply (c ∷ d ∷ calls) r = IsMediaRefused (reply c) × IsTrail reply (d ∷ calls) r

refused-IsTrail :
    (reply : ApiCall → Reply) (first : ApiCall) (e : ApiError) (calls : List ApiCall) (r : Reply)
    → reply first ≡ refused e
    → IsTrail reply calls r
    → IsTrail reply
        (try_media first (refused e) (calls, r)).0
        (try_media first (refused e) (calls, r)).1
unfolding try_media is_downgradable
refused-IsTrail reply first e [] r h t = absurd (ground (arith, t))
refused-IsTrail reply first e (c ∷ calls) r h t =
    if_cases (λ (out : List ApiCall × Reply). IsTrail reply out.0 out.1)
      (e.media_rejected && not (truthy_number e.retry_after_seconds))
      (λ media. ((e, h, ground arith, ground arith), t)) (λ other. sym h)

try_media-IsTrail :
    (reply : ApiCall → Reply) (first : ApiCall) (answer : Reply) (rest : List ApiCall × Reply)
    → reply first ≡ answer
    → IsTrail reply rest.0 rest.1
    → IsTrail reply (try_media first answer rest).0 (try_media first answer rest).1
unfolding try_media
try_media-IsTrail reply first (accepted ids) rest h t = sym h
try_media-IsTrail reply first (refused e) rest h t = refused-IsTrail reply first e rest.0 rest.1 h t

-- One attempt to send a card makes at most three calls. It ends with the answer to the last one, and
-- each call before that was refused for its media, with no pause asked for: none is made behind an
-- accepted call, a lost answer or a rate limit, so at most one call is accepted, the last, and exactly
-- where the attempt succeeds.
pub send_listing_card-once :
    (kind : SendKind) (reply : ApiCall → Reply)
    → let out = send_listing_card kind reply in
      (count_by (λ call. is_accepted (reply call)) out.0 ≡ (if is_accepted out.1 then 1 else 0))
      × (length out.0 ≤ 3)
      × IsTrail reply out.0 out.1
unfolding send_listing_card try_media is_downgradable
send_listing_card-once text_card reply = (ground arith, ground arith, refl)
send_listing_card-once photo_card reply = (
  ground arith,
  ground arith,
  try_media-IsTrail reply send_photo (reply send_photo) (send_text reply) refl refl,
)
send_listing_card-once album_card reply = (
  ground arith,
  ground arith,
  try_media-IsTrail reply send_media_group (reply send_media_group) (send_single reply) refl
      (try_media-IsTrail reply send_photo (reply send_photo) (send_text reply) refl refl),
)

-- The subscriber of a chat: none, or whether it is active.
abbrev pub Subscriber : Type 0
Subscriber = Option Bool

abbrev pub is_confirmed : Option ApiError → Bool
is_confirmed none = false
is_confirmed (some e) = e.permanent_chat

-- `verifyAndSuppressBlockedChat`: what it returns, and the subscriber. The probe's answer is `none`
-- where it is accepted; `persists` tells whether the update resolves.
unfoldable pub verify_and_suppress_blocked_chat :
    Bool → Bool → Bool → Bool → Option ApiError → Bool → Subscriber → Bool × Subscriber
verify_and_suppress_blocked_chat enabled has_chat is_owner configured probe persists subscriber =
    if not (enabled && has_chat) || is_owner || not configured || not (is_confirmed probe)
    then (false, subscriber)
    else if persists && or_else subscriber false
    then (true, some false)
    else (false, subscriber)

-- A chat is taken from the subscribers exactly where the function says so; and then the suppression is
-- enabled, the chat is not the owner's, a second verdict of Telegram confirmed the block, and the
-- subscriber was active.
pub verify_and_suppress_blocked_chat-confirmed :
    (enabled has_chat is_owner configured persists : Bool) (probe : Option ApiError)
    (subscriber : Subscriber)
    → let out =
        verify_and_suppress_blocked_chat enabled has_chat is_owner configured probe persists
          subscriber in
      (out.0 ≡ false → out.1 ≡ subscriber)
      × (out.0 ≡ true
          → (out.1 ≡ some false)
            × (subscriber ≡ some true)
            × (enabled ≡ true)
            × (is_owner ≡ false)
            × (is_confirmed probe ≡ true))
unfolding verify_and_suppress_blocked_chat
verify_and_suppress_blocked_chat-confirmed enabled has_chat is_owner configured persists probe s =
    (λ h. ground arith, λ h. (ground arith, ground arith, ground arith, ground arith, ground arith))
