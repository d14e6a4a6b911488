-- ===== src/Lib.antt =====
-- AI-TTS: a local daemon that queues text, has a speech engine synthesize it and plays it back.
--
-- The parts and how they interact. A client submits text; the daemon asks the voice register in
-- which voice the client speaks, and the store keeps the utterance with its spoken segments. The
-- synthesis workers claim rows from the store and hand the audio back to it; the playback
-- controller takes the next pending utterance and reports its transitions; the detector of input
-- activity tells when the listener has begun to speak; a stream carries the samples of a clip that
-- is still being synthesized to the device; the cache controller deletes audio that
-- nothing in the store still owes to the listener. The store is thus what the parts share, and its
-- methods are where they meet.
--
-- What models what (paths from the repository's root):
--   Model.antt           src/aitts/model.py: the states, the transition table, the rows.
--   Store.antt           src/aitts/store.py: the tables, the callbacks' events and the exceptions.
--   Store/Exec           Actions on the database: a method returns or raises, and what it wrote
--                        before raising stays written.
--   Store/Reads          The queries, among them get, input_queue, playback_queue, next_pending,
--                        history, protected_audio_paths and the order keys.
--   Store/Transition     transition and transition_segment.
--   Store/Submit         submit.
--   Store/Synthesis      claim_for_synthesis.
--   Store/Streaming      start_streaming, finish_synthesis, fail_synthesis, the streaming jobs.
--   Store/Replay         restart_segments, reset_segments_from, skip_utterance, suspend_playback.
--   Store/Queue          move_to_head, clear_queue, clear_pending, reorder_pending, the history.
--   Store/Registry       The voice assignments and the settings.
--   Store/Recover        recover, after a restart of the daemon.
--   Store/Calls          Every writing method as a call, and the database after it.
--   Voices.antt          src/aitts/application/voice_assignment.py and voice_languages.py.
--   Voices/Registry      src/aitts/voice_registry.py: resolve and assign, over the store.
--   Floor.antt           src/aitts/application/input_activity.py: the interrupt detector.
--   Metrics.antt         src/aitts/application/metrics.py: the marks and samples of the recorder.
--   Synthesis.antt       src/aitts/synthesis.py and eligible_engine_names of src/aitts/engine.py: one
--                        turn of a worker, over the port of src/aitts/application/artifacts.py.
--   Settings.antt        src/aitts/settings.py: the values that may arrive, and their parsers.
--   Settings/Plan        src/aitts/settings.py: the validators of the settings.
--   Settings/Service     src/aitts/settings.py: apply, values and the reads of one setting.
--   Segments.antt        src/aitts/segmentation.py: the segments of paragraphs.
--   Segments/Bounded     src/aitts/segmentation.py: _bounded_segments and what it calls.
--   Segments/Sections    src/aitts/segmentation.py: _structural_sections and segment_text.
--   Segments/Spoken      src/aitts/segmentation.py: _clean_spoken_text and the scanners of texts.
--   Segments/Blocks      src/aitts/segmentation.py: Markdown's tree, its blocks and their sections.
--   Segments/Markdown    src/aitts/segmentation.py: _inline_text, the tables, the lists and
--                        _render_blocks.
--   Segments/Prepare     src/aitts/segmentation.py: the front matter and prepare_speech_segments.
--   Pcm/Ring             src/aitts/streaming.py: the ring of samples that a device reads.
--   Pcm/Spool            src/aitts/streaming.py: the stream that spools samples to a file and feeds
--                        the ring from it, with its threads as moves.
--   Pcm/Streams          src/aitts/streaming.py: StreamingRegistry, over a heap of streams.
--   Playback.antt        src/aitts/playback.py: the state of PlaybackController and of FakeSink.
--   Playback/Act         Actions of the controller: they return or raise, as those of the store.
--   Playback/Device      _begin, _begin_segment, _start_saved, _release_sink and the cues.
--   Playback/Plan        _plan_preemption and one turn of run; clear_preempted.
--   Playback/Watch       _watch and _watch_outro, once the sink has ended.
--   Playback/Control     set_playback_rate, pause, interrupt, resume.
--   Playback/Transport   skip, next_segment, previous_segment, restart_current, stop, shutdown.
--   Playback/Step        All of these as steps, with the end of a clip and the work of the daemon.
--   Interrupt.antt       src/aitts/input_interrupt.py: the watcher that holds playback for the
--                        listener's voice and releases the hold.
--   Cache.antt           src/aitts/application/cache.py: the limit and the purge.
-- The other files beneath these prove theorems on them. Common.antt and its children hold
-- the Boolean tests, lists, integers, texts, SQL statements and the laws of sorting; Tests.antt
-- holds concrete databases.
--
-- How the state corresponds. A table is the list of its rows, in the order in which SQLite scans
-- them, so that ORDER BY sorts rows with equal keys stably. A column that may be NULL is an option,
-- and a method is a function of the whole database. `time.time()` is read from a given sequence of
-- clock readings, and the calls of the observers are appended to a list of events. The set of
-- claimed voices is a list of which only membership is asked. Order keys are integers, since the
-- source only ever adds and subtracts whole numbers; speeds are opaque numbers. Python's integers
-- are unbounded, and no fixed width is modelled. The cache's file port is a parameter, with the
-- OSError of an operation as the result none, and the engine's catalog of voices and the
-- listener's default voice are arguments of the register. Sequences of detector readings are
-- lists with the last reading first. A byte of audio is any number, since bytes are only moved; the
-- samples of a stream's WAV file are a list, and each block of code under the stream's lock is one
-- move, so that every interleaving of its threads is a list of moves. The playback controller is a
-- record with the store in it; its sink is FakeSink, which counts a start while a clip is active, and
-- what other tasks do while it waits for the device to be released is a function that its methods
-- take, with the hypothesis that it keeps what the methods keep. Playback rates count hundredths.
--
-- The worker of the pool acts on a record of the store, the registry of streams and a disk, which is
-- a parameter, as are the artifact port, the engines, the text of an exception and what the other
-- tasks do while the renderer's thread runs; a call that may raise gives a value or the text of the
-- exception. A value that arrives for a setting is a tree of JSON, the floats are a parameter with
-- the operations that the code uses, and so is the environment whose live components a write changes.
-- A position in a text counts its characters, and a match of a regular expression is its start and end.
--
-- Bounds and fuel. Almost every loop of the source that is modelled runs over a list or a text and is
-- structural recursion on it. Fuel is used twice: for the decimal form of a number it is one
-- more than the number, which has fewer digits than that, and for the loop of _bounded_segments it
-- is one more than the number of words of the section, of which every turn takes at least 90.
--
-- Not modelled: the opening and migration of the SQLite file and its own failures; the minting of
-- identifiers; the rendering of samples for a device and the timed wait for a first buffer, in
-- streaming.py; the sink of the real device and the restoration of the controller, in
-- playback.py; the streaming render and the evidence recorder, in synthesis.py; the request handlers
-- and the line protocol, which call the methods of these parts; the parser of
-- Markdown and str.isalpha, which are parameters; the summaries of the metrics (floating-point percentiles) and schemas; the
-- engines, devices, sockets, files and logs behind the ports; the command line, the terminal
-- interface and the Swift and Zed clients, which present the daemon's state. Of Python's int, the
-- digits of other scripts and the limit of 4300 digits are left out.
pub mod Common
pub mod Model
pub mod Store
pub mod Voices
pub mod Synthesis
pub mod Settings
pub mod Floor
pub mod Cache
pub mod Metrics
pub mod Segments
pub mod Pcm
pub mod Playback
pub mod Interrupt
mod Tests
