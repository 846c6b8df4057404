-- ===== src/Lib.antt =====
-- A model of the core of the WAVE realtime edge worker, a Cloudflare Worker in TypeScript: rooms and
-- their admission rules, the presence sockets of a room, the routed egress and its kill switch, the
-- regions that record and serve a session, and the container formats that the media pipes read and write.
--
-- Parts and files. `Room` is src/room-state.ts and the class RoomCore of src/room.ts: `Room.State` the
-- data, `Room.Core` ensureRoom, joinRoom and admissionCheck, `Room.Admin` the host's operations, the
-- expiry and leaveRoom, `Room.Tracks` the track registry, `Room.Store` load and save and the calls of
-- one room, `Room.Serve` how the object serves them. A method is a function of the loaded state that throws an SfuError, passes (returns without
-- a save) or saves; the name is the source's in snake case (setCapacity is `set_capacity`). The texts of
-- errors are left out, their codes and statuses are kept. A Durable Object takes one call at a time, so
-- a room's history is a sequence of calls; `Room.Change` describes what each call may change as a
-- relation on states, along which the invariants of a room are shown.
--
-- `Presence` is src/presence.ts and the presence part of the class RoomDO of src/room.ts: the
-- projection of a room (`View`), the frames (`Wire`), the hub and the socket glue (`Engine`), and the
-- version counter (`Version`). Sends and closes are lists of effects. It reads the state that `Room`
-- keeps. JSON.parse is a parameter.
--
-- `Egress` is src/egress-router.ts (`Router`) and src/egress-killswitch.ts (`Killswitch`). A job's
-- fields are untrusted, so a number may be a fraction or no number and a flag may be no Boolean. The
-- key-value store is an association list, JSON is a parameter, and the effect of `disarm` is the list of
-- its calls.
--
-- `Media` is src/encoders/ivf.ts (`Ivf`) and src/muxer/webm.ts (`Webm`). A byte string is a list of
-- numbers. A timestamp of an IVF file is a sum of doubles, so it is rounded to 53 bits (`Double`).
-- TextEncoder and DataView.setFloat64 are parameters.
--
-- `Region` is src/region-registry.ts (`Registry`), src/residency-rt.ts (`Residency`) and src/cascade.ts
-- (`Cascade`). toUpperCase is a parameter, and the absent continent is the empty text.
--
-- `Whip` is src/whip-resource.ts (`Resource`), src/whip-meter.ts (`Meter`) and src/whip-sweep.ts: the
-- decision on the probed resources (`Plan`), what a page of the listing changes in the store (`Sweep`),
-- and the loop over the pages with the place that it keeps between ticks (`Cron`). What a tick meets
-- outside, such as the verdicts of the SFU and the failures of the store, is a record of functions. The
-- rule for one resource (`Rule`) is what the history of a resource is told with.
--
-- `Recording` is src/recording-writer.ts: the container and the key (`Key`) and the class
-- RealtimeRecorder (`Writer`). An operation gives the fields as it leaves them and whether it returned
-- or threw, and keeps a list of the parts that the bucket accepted; the bucket's answers are a record of
-- functions. `Recording.Session` composes begin, appends, an eviction and finalize.
--
-- `Tap` is src/media-tap.ts: the queue of one consumer (`Queue`) and the fan-out (`Fanout`). A promise of
-- next is the list of what such calls were resolved with and a flag for one that waits. It reads the
-- tracks of the room that `Room` keeps.
--
-- `Channel` is src/channel.ts (`Ring`, `Hub`) and src/channel-do.ts (`Object`): the last events of a
-- channel in memory and storage, and the frames that its subscribers get, as a list with their sockets.
--
-- `Metering` is src/metering.ts and the session minutes of src/event-emitter.ts (`Lines`): the usage that
-- `leaveRoom` returns as lines for the meters of the gateway. A quotient is kept as its two numbers.
--
-- Fuel. The loop of append runs on the bytes of the queue and one more. The loop over the pages of a
-- sweep takes fuel: as many rounds as keys that it may examine, times one more than the empty pages that
-- the listing may give in a row, and those ahead of the first cursor, and one more, are enough. The loop
-- of parseIvf runs on the length of the buffer and one more, since each round uses up the 12 bytes of a
-- frame header. The loop over the bytes of a number runs on the number and one more.
--
-- Conventions and bounds. Times are milliseconds as natural numbers. Where the source subtracts, the
-- model compares a sum or says why a subtraction that stops at 0 gives the same answer. `undefined` and
-- `null` are `none`. A JavaScript object used as a map is an association list in the order of insertion;
-- ids that name properties of Object.prototype, and the order of keys that are integers, are left
-- aside. Files named `Tests` apply the theorems at concrete inputs.
--
-- Not modelled: the HTTP routes and the alarm of RoomDO, the delivery of meter lines and events, the
-- clients of outside services (the SFU, storage buckets, speech and GPU providers), the cost circuit
-- breaker, whose sums are floating-point dollars, the containers, and the landing page.
pub mod Common
pub mod Room
pub mod Presence
pub mod Media
pub mod Egress
pub mod Region
pub mod Whip
pub mod Recording
pub mod Tap
pub mod Channel
pub mod Metering
