-- ===== src/Telegram/Examples.antt =====
-- The delivery of cards at concrete histories.
use auto_monitor_bot.Base.{
  ◌++◌, ℕ, ◌==◌, ◌≤◌, ◌≡◌, refl, ◌≢◌, true, false, List, [], ◌∷◌, none, some, arith, if◌then◌else◌,
  all, length, count_by,
}
use auto_monitor_bot.Telegram.Policy.{
  ApiError, plain_error, failure_ambiguous, telegram_delivery_retry_delay_ms,
  classify_telegram_delivery_failure, should_quarantine_delivery, is_quarantinable,
  telegram_retry_due, sending,
}
use auto_monitor_bot.Telegram.Card.{
  Card, created_card, reservation_decision, quarantine_card, claim_card, renew_card, store_receipt,
  fail_card, not_configured_card, stage_card, release_card, accept_flash_card, bundle_card,
  edited_card, failure_status, failure_retry_at,
}
use auto_monitor_bot.Telegram.Senders.{
  over, Delivery, Deployment, new_delivery, DeliveryEvent, reads, decides, reserves, asserts,
  stores, accepts, rejects, records, signals, edits, stages, read_card, decide, reserve, give_up,
  renew, assert_owned_card, accept_card, persist_receipt, finish_sync, reject, record_failure,
  signal_write, delivery_step, run_delivery,
}
use auto_monitor_bot.Telegram.Accepted.{ids_pass, was_accepted}
use auto_monitor_bot.Telegram.Receipt.{has_receipt, run_delivery-keeps_receipt}
use auto_monitor_bot.Telegram.Fencing.{
  has_reservation, held_attempt, may_start, run_delivery-one_starts,
}
use auto_monitor_bot.Telegram.Retry.{
  next_decision, fail_card-retried, undisturbed, run_delivery-delivers,
}
use auto_monitor_bot.Telegram.Send.{
  IsTrail, ApiCall, Reply, send_message, send_photo, send_media_group, album_card, accepted,
  refused, is_accepted, send_listing_card, send_listing_card-once,
}
use auto_monitor_bot.Telegram.Cleanup.{
  Answers, is_cleared, is_dealt_with, cleanup_listing_telegram_message,
  cleanup_listing_telegram_message-is_dealt_with,
}
use mathlib.Core.Option.{map as map_option}
use auto_monitor_bot.Telegram.FirstSignals.{
  create_missing, Receipt, Admitted, new_receipt, admit_chat,
}
use auto_monitor_bot.Telegram.Admission.{is_cared_for, admit_chat-is_cared_for}
use Prim.Native.String.{String}

abbrev production : Deployment
production = record { configured = true; retention_ms = 172800000 }

-- Sender 1 sends a card while its lease runs out, sender 2 reserves the card again; the receipt of the
-- first is stored all the same.
abbrev overlap : List DeliveryEvent
overlap =
    reads 1000 1
    ∷ decides false 1
    ∷ reserves 1
    ∷ asserts 2000 1
    ∷ reads 70000 2
    ∷ decides false 2
    ∷ reserves 2
    ∷ accepts "41" 1
    ∷ stores 71000 1
    ∷ []

abbrev aftermath : List DeliveryEvent
aftermath =
    rejects plain_error 2
    ∷ records 72000 500 false 2
    ∷ signals 73000 stages
    ∷ signals 74000 edits
    ∷ []

overlapped : Delivery
unfolding run_delivery delivery_step read_card decide reserve give_up renew assert_owned_card
    accept_card persist_receipt finish_sync reject record_failure signal_write created_card
    reservation_decision quarantine_card claim_card renew_card store_receipt fail_card
    not_configured_card stage_card release_card accept_flash_card bundle_card edited_card
    failure_status failure_retry_at classify_telegram_delivery_failure should_quarantine_delivery
    is_quarantinable telegram_retry_due telegram_delivery_retry_delay_ms
overlapped = run_delivery production overlap new_delivery

run_delivery-keeps_receipt_example :
    let card =
      (run_delivery production aftermath (run_delivery production overlap new_delivery)).card in
    (has_receipt card ≡ true) × (ids_pass (was_accepted (overlap ++ aftermath)) card ≡ true)
unfolding overlapped
run_delivery-keeps_receipt_example =
    run_delivery-keeps_receipt production overlap aftermath refl refl

abbrev waiting : List DeliveryEvent
waiting =
    reads 1000 1 ∷ decides false 1 ∷ reserves 1 ∷ reads 70000 2 ∷ decides false 2 ∷ reserves 2 ∷ []

run_delivery-one_starts_example :
    let d = run_delivery production waiting new_delivery in
    (has_reservation (d.senders 2) ≡ true
      → has_reservation (d.senders 1) ≡ true
      → held_attempt (d.senders 2) ≢ held_attempt (d.senders 1))
    × (may_start 71000 2 d ≡ true → may_start 72000 1 d ≡ false)
run_delivery-one_starts_example =
    run_delivery-one_starts production waiting 71000 72000 2 1 (omega arith)

-- A card at its fortieth attempt.
abbrev tired_card : Card
tired_card = record {
  status = sending;
  attempt_count = 40;
  message_id = none;
  lease_expires_at = some 61000;
  next_attempt_at = none;
  processing_started_at = some 1000;
  last_attempt_at = some 1000;
  last_error = none;
  sent_at = none;
  accepted_at = none;
  delete_after = none;
  favorited_at = none;
  retain_until = none;
  retention_policy_applied_at = none;
  cleanup_attempted_at = none;
}

fail_card-retried_example :
    let after = fail_card 5000 500 40 false none failure_ambiguous tired_card in
    (after.0 ≡ true)
    × (reservation_decision 9000000 false (some after.1) ≡ next_decision failure_ambiguous 40 none)
unfolding overlapped
fail_card-retried_example =
    fail_card-retried tired_card 40 5000 500 9000000 false none failure_ambiguous refl refl

run_delivery-delivers_example :
    let after = run_delivery production (undisturbed 1000 2000 "41" 1) new_delivery in
    (after.senders 1 ≡ over)
    × (has_receipt after.card ≡ true)
    × (map_option (λ c. c.message_id) after.card ≡ some (some "41"))
run_delivery-delivers_example =
    run_delivery-delivers production new_delivery 1 1000 2000 "41" refl refl refl (omega arith)

abbrev dead_link : ApiError
dead_link = record plain_error { media_rejected = true }

-- The photos cannot be fetched.
abbrev dead_links : ApiCall → Reply
dead_links send_message = accepted "41"
dead_links send_photo = refused dead_link
dead_links send_media_group = refused dead_link

send_listing_card-once_example :
    let out = send_listing_card album_card dead_links in
    (count_by (λ call. is_accepted (dead_links call)) out.0 ≡ (if is_accepted out.1 then 1 else 0))
    × (length out.0 ≤ 3)
    × IsTrail dead_links out.0 out.1
send_listing_card-once_example = send_listing_card-once album_card dead_links

abbrev too_old : ApiError
too_old = record plain_error { delete_too_old = true }

-- An album whose first message is too old to delete, and has a caption.
abbrev old_album : Answers
old_album = record {
  delete = λ id. some too_old;
  edit_text = λ id. some (record plain_error { no_text = true });
  edit_caption = λ id. none;
}

cleanup_listing_telegram_message-is_dealt_with_example :
    is_cleared (cleanup_listing_telegram_message true old_album ("41" ∷ "42" ∷ []))
    ≡ all (λ id. is_dealt_with old_album id) ("41" ∷ "42" ∷ [])
cleanup_listing_telegram_message-is_dealt_with_example =
    cleanup_listing_telegram_message-is_dealt_with old_album ("41" ∷ "42" ∷ [])

abbrev bundle_name : ℕ → List String → String
bundle_name index group = if index == 0 then "b0" else "b1"

abbrev chat_receipts : List Receipt
chat_receipts = record (new_receipt "a") { accepted_at = some 5 } ∷ []

admit_chat-is_cared_for_example :
    (out : Admitted) × (admit_chat
        (λ group. true)
        2
        bundle_name
        (λ b. none)
        9
        ("a" ∷ "b" ∷ "c" ∷ [])
        chat_receipts
        []
      ≡ some out)
    × (is_cared_for (new_receipt "c") out "c" ≡ true)
unfolding create_missing
admit_chat-is_cared_for_example =
    admit_chat-is_cared_for (λ group. true) 2 bundle_name (λ b. none) 9 ("a" ∷ "b" ∷ "c" ∷ [])
      chat_receipts [] "c" (new_receipt "c") (λ t. refl) refl refl refl
