-- ===== src/Lib.antt =====
-- dontguess: a cached-inference exchange, in Go. Agents put inference results into an inventory, buy
-- matches, and pay in scrip. Every component is a fold of an append-only log of messages.
--
-- Parts and files
--   Proto, Json      the message (pkg/proto/message.go) and its JSON payload. The folds of all parts
--                    take this message; a payload is the list of its members in text order, decoded
--                    field by field as encoding/json does, each with the name of the field it is read
--                    into (encoding/json does not tell upper and lower case apart). The literal null
--                    is the empty object, as it leaves a struct alone.
--   Scrip            pkg/scrip/relay_store.go, loan.go, messages.go and spending_store.go: the ledger.
--     Types          LocalScripStore, balanceEntry, LoanRecord, Reservation, and the etag.
--     Balance        addToBalance and subtractFromBalance (with its live guard).
--     Budget         GetBudget, DecrementBudget, AddBudget, Balance.
--     Reservations   SaveReservation, GetReservation, DeleteReservation, ConsumeReservation.
--     Loans          applyLoanMint, applyLoanRepay, applyLoanVigAccrue and the loan queries.
--     Ledger         the other handlers, scripOp, applyMessage and Replay.
--   Exchange         pkg/exchange: what operation a message performs, and the match index.
--     Op             isExchangeOpTag and exchangeOp of state_put.go.
--     Matches        applyScripBuyHold, applyScripSettle, markMatchSettledLocked and applyConsume of
--                    state_core.go, and RegisterWireAlias of state_wire_alias.go.
--   Assign           pkg/exchange/state_assign.go and its types in state_types.go: the task market.
--     Types          AssignRecord, AuctionBid, foldTime, the maps of State; recordFoldDenial of
--                    state_core.go and resolveAlias of state_wire_alias.go.
--     Payloads       the decoding of exchange:assign and exchange:assign-claim.
--     Auction        the sealed bids, their insertion sort, the clearing price, the tier.
--     Fold           applyAssign, applyAssignClaim, applyAssignAuctionClose, applyAssignComplete,
--                    applyAssignAccept, applyAssignReject, applyAssignExpire, ClaimAssignPayment, and
--                    the switch of applyLocked for these messages.
--     Queries        ExpireStaleClaims, PendingAuctionClose, ActiveAssigns, AllActiveAssigns,
--                    CompletedUnacceptedAssigns.
--   Trust            pkg/exchange/trust.go and the gate in front of the engine's handlers.
--     KeySet         the mutable set of admitted keys.
--     Checker        TrustChecker: its construction, revocations, Level, RequiredLevel, Check.
--     Gate           the trust gate of Engine.dispatch and recordTrustDenial (engine_core.go), and
--                    tryOpenAdmit (engine_admission.go).
--   Credit           pkg/exchange/engine_credit.go: loans for buyers who are short, and repayment.
--     Rail           its functions, on the ledger of Scrip.
--   Sequencer        pkg/exchange/sequencer.go: the causal order of the messages of several relays.
--     Types, Order   Sequencer and its errors; messageHeap.
--     Ingest         Ingest, IngestLive, MarkEmitted, and the count of the true orphans.
--     Drain          Drain, Seal, PendingAntecedents, SequenceForFold.
--     Canonical      the specification: the release order, as a relation.
--     Reachable      the states that the calls reach.
--   Settlement       pkg/exchange/state_settle.go, and applyMatch of state_buy.go: a sale, from its match to
--                    its completion.
--     Types          the maps of State that the handlers use, InventoryEntry, SellerStats; sellerStats of
--                    state_assign.go.
--     Fold/Stock     applySettlePutAccept, applySettlePutReject, applyDerivativePut.
--     Fold/Buyer     applySettleBuyerAccept, applySettleBuyerReject, applySettlePreviewRequest,
--                    applySettleSmallContentDispute.
--     Fold/Operator  applyMatch, applySettlePreview, applySettleDeliver.
--     Fold/Complete  applySettleComplete, applySettle, settlePhaseFromTags (state_put.go),
--                    incrementFederationTransactionCount (state_federation.go).
--     Repeat         the same message folded twice.
--     Sales          the states that matches and settle messages reach.
--   Demand           the demand-only registrations of unfunded buyers.
--     Fold           applyDemandOnly and pruneDemandWindow (pkg/exchange/state_buy.go), HasDemandOnly,
--                    DemandOnlyTotal, DemandOnlyCountForSender (state_accessors.go).
--     Register       registerDemandOnly (engine_buy.go), and what applyMatch does with its message.
--     Reference      the fold that never forgets a registration, as the specification.
--     Caps           the states that the calls reach.
--     Held, Dedup    how long a task stays registered, whatever other calls come between.
--   Base             Boolean tests, Go maps, int64 and sums, shared by all parts.
--
-- How the parts interact: applyLocked of the exchange and applyMessage of the ledger fold the same
-- log. exchangeOp names the operation for the first, scripOp for the second. In front of the engine's
-- handlers stands the trust gate. The sequencer puts the messages of several relays into the order in
-- which the folds take them. A sale is a chain of messages, each naming the one before: match, accept,
-- deliver, complete; applySettle follows it by the maps that the earlier messages filled, and shares
-- the aliases and the alarm with the assign fold. The engine pays an accepted assign through
-- ClaimAssignPayment, charges a buyer through DecrementBudget and a reservation, and lends through
-- records that the ledger folds.
--
-- Choices
--   - A text (a key, an id, a time in RFC 3339) is a number; the empty text is 0. time.Parse is a
--     parameter of the configuration that the definitions take.
--   - An int64 is its bit pattern below 2 ^ 64; add64, sub64 wrap around, slt compares as signed. The
--     counters gen and epoch are uint64.
--   - A Go map is an association list, with `none` for a missing key. A range over a map has no order;
--     what is read off one is used as a set.
--   - The etag "epoch-gen" is a data type with the empty text and any other text beside it.
--   - A pointer to an assign record is the id of the assign: a record is made once, under its own id.
--   - A time is the nanoseconds since the zero time; the clock is an argument.
--   - Loops are structural recursion on the list that they range over. The loops of Drain and of the
--     eviction of the sequencer have fuel, the number of the buffered messages, which is always enough:
--     each round releases or evicts one.
--   - The ids of the messages are hexadecimal texts of one length, whose order is that of the numbers.
--     The heap of container/heap is a list whose pop takes the least; a bound on the orphans that is not
--     positive is 0.
--   - The phase of a settle tag and the demand-only tag are parameters that tell texts apart. The results
--     of a match are a list of entry ids. The price history has its last record first. A federation
--     profile is its count of transactions.
--   - The comparison of the difficulty tier is in float64 in the code, and exact here; both agree for
--     amounts below 2 ^ 51.
--   - The times of the demand-only registrations are int64 patterns of nanoseconds; that a time in RFC 3339
--     is read back as it was written, to the second, is a hypothesis where it is needed.
--   - A callback is the list of its calls. A mutex is not modelled: a method is one step.
--
-- Not modelled: the relay transport, signatures and encryption, embeddings and ranking in floating
-- point, files and sockets, the command line, the site. Of the exchange state, the put and buy
-- folds, the hop depths and the reads (accessors, reputation), and of the engine the handlers behind
-- the trust gate, are not modelled.
pub mod Base
pub mod Json
pub mod Proto
pub mod Scrip
pub mod Exchange
pub mod Assign
pub mod Credit
pub mod Demand
pub mod Sequencer
pub mod Settlement
pub mod Trust
