-- ===== src/Lib.antt =====
-- Verification of the waiter app: its bill screen, the states, tables and problems of its orders, its
-- menu and two of its settings, in Swift, and the C code in its build, which is nanopb, the protocol buffer codec under SMOLO+/Pods/nanopb, and the Base64 code of
-- Firebase's web socket.
--
-- Base            Boolean tests, lists, and bit operations on the native numbers.
-- Nanopb.Status   the result of a call: `ok` is `return true`, `fail` is `return false` with the
--                 state that it leaves, `fault` is what C leaves undefined, and also a loop that
--                 runs out of rounds. `errmsg` keeps the first message, as PB_SET_ERROR does.
-- Nanopb.Istream, Nanopb.Substream
--                 pb_decode.c: pb_istream_t over a buffer, the readers of the wire format,
--                 skipping, substreams. The stream is the state that each call passes on.
-- Nanopb.Ostream  pb_encode.c: pb_ostream_t into a buffer or for sizing, and the writers.
-- Nanopb.Field, Nanopb.Iter
--                 pb.h and pb_common.c: pb_field_t and the field iterator.
-- Nanopb.Memory, Nanopb.Program
--                 the memory of the messages as a function from addresses to bytes; the tables of
--                 fields, the callbacks and the extensions that the caller provides.
-- Nanopb.Defaults, Nanopb.DecodeField, Nanopb.DecodeMessage, Nanopb.DecodeStruct
--                 pb_decode.c from the defaults and the field decoders up to pb_decode.
-- Nanopb.EncodeField, Nanopb.EncodeMessage
--                 pb_encode.c from the field encoders up to pb_encode and pb_get_encoded_size.
-- Nanopb.Varint   varints described apart from the code: their bytes, value and shortest form.
-- Nanopb.Decode, Nanopb.Encode, Nanopb.RoundTrip, Nanopb.Iter.Walk, Nanopb.Iter.Search,
-- Nanopb.Safety, Nanopb.DecodeStruct.Required
--                 the theorems on readers, writers, both, the iterator, the bounds of input
--                 streams, and the test of required fields.
-- Base64          SMOLO+/Pods/FirebaseDatabase/Firebase/Database/third_party/SocketRocket/fbase64.c:
--                 f_b64_ntop and f_b64_pton on the target buffer as a sequence of bytes;
--                 Base64.Text and Base64.Rfc describe the characters, by the code and apart from
--                 it; Base64.Chars, Base64.Steps and Base64.RoundTrip are about reading them.
-- Rechnung        SMOLO+/SMOLO+/Views/FertiggestelltVC.swift with KellnerTVSection.swift and
--                 BestellungFertig.swift of SMOLO+/SMOLO+/Models: the variables of the view
--                 controller are a record that each function passes on, and a trap of Swift is
--                 `none`.
-- Rechnung.Lesen  loadBestellungen up to its end: an order out of the snapshot, without the comments
--                 and litres of its items; `lies` has the loops over the items only.
-- Rechnung.Lesen.Extras
--                 the loops of loadBestellungen over the extras of the items.
-- Rechnung.Lesen.Durchlauf
--                 the whole traversal of the snapshot in loadBestellungen, items and extras.
-- Rechnung.Laden  loadBestellungenKeys, the end of loadBestellungen, and reload. What the database
--                 delivers is a parameter.
-- Rechnung.Zusammenfuehren
--                 BestellungenZusammenführen: the orders of each table in one bill.
-- Rechnung.Auswahl
--                 the taps that choose what to pay, allesBezahlen, and the cells of what is chosen.
-- Rechnung.Auswahl.Aufklappen
--                 toggleSection for the bills.
-- Rechnung.Preise SMOLO+/SMOLO+/Views/KellnerVC.swift: gesamtpreisBerechnen and teilPreis. The
--                 arithmetic of Double is a parameter of which nothing is assumed.
-- Kellner.Datenbank
--                 what the app uses of the Firebase database, a parameter with two laws.
-- Kellner.Status  the states of an order: annehmen and removeBestellung of KellnerVC.swift,
--                 KellnerAngenommenVC.swift and FertiggestelltVC.swift, and which orders they take up.
-- Kellner.Umbuchen, Kellner.Problem
--                 KellnerVC.swift: the swipes over an order, moving it to another table, and the
--                 report of a problem.
-- Kellner.Ampel   DetailEinstellungenVC.swift and SMOLO+/SMOLO+/Models/Ampelmodel.swift: the limits
--                 from which an order is shown yellow or red.
-- Kellner.Passwort
--                 PasswortVC.swift: speichernPW, with the authentication service as a parameter.
-- Speisekarte     ProdukteVC.swift: the menu as its categories arrive, and switching an item.
-- Rechnung.Laden.Ankunft, Rechnung.Laden.Anfang, Rechnung.Preise.Summe, and the modules
-- below Rechnung.Lesen, Rechnung.Zusammenfuehren, Rechnung.Auswahl, Kellner and Speisekarte
--                 the theorems on these; a screen is valid as Rechnung.Auswahl.Zustand says.
-- Tests           runs and concrete instances.
--
-- An encoder and a decoder call each other through the tables PB_ENCODERS and PB_DECODERS; the
-- model ties this knot with a bound on the depth of submessages, which is an argument of
-- `pb_encode` and `pb_decode`. The loop of pb_decode_varint has eleven rounds and that of
-- pb_decode_varint32 five, since the shift then exceeds the word; other loops have one round for
-- each byte or field that is left.
--
-- The configuration is that of the app's target: PB_FIELD_32BIT, no packed structs, no
-- PB_ENABLE_MALLOC, 64-bit addresses and sizes, little endian. Not modelled: the functions
-- compiled under PB_ENABLE_MALLOC, streams with a callback of the caller's, the login,
-- the screens of orders by category, the cells and headers, what the screens animate, and the other
-- libraries in the build.
-- The bill screen uses of a dictionary of Swift that each key stands in it once; the order of the
-- tables is that in which Swift runs through the keys.
pub mod Base
pub mod Base64
pub mod Nanopb
pub mod Kellner
pub mod Rechnung
pub mod Speisekarte
mod Tests
