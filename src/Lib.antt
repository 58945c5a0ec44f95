-- ===== src/Lib.antt =====
-- msgpck is a MessagePack codec in Go. An Encoder appends to a byte buffer, a Decoder reads a byte
-- slice under a Config of limits; a Value is what the generic decoder returns and EncodeValue takes.
-- On top of these stand decoders and encoders that reflect on Go types and on structs.
--
-- Which file models which part:
--   Format          format.go: format bytes, masks, tests on the fix formats
--   Errors, Config  errors.go, config.go
--   Value           value.go: Value, its accessors, Get and bytesEqual (bytes_equal)
--   Encoder         encoder.go: each method, from grow and writeByte (write_byte) to EncodeValue
--                   (encode_value) and the typed arrays
--   Decoder         decoder.go: the state, and the reads readByte (read_byte) to readFloat64
--   Decoder.Limits  decoder.go: validateStringLen and the four others
--   Decoder.Lengths decode_struct.go: parseStringLen and its like; decoder.go: readStringBytes
--   Decoder.Values  decode_value.go: Decode (decode), decodeValue, decodeArray, decodeMap, decodeExt
--   Decoder.Integers  decoder.go: decodeInt, decodeUint; decode_struct.go: decodeValueInt,
--                   decodeValueUint; decode_any.go: decodeIntValue, decodeUintValue
--   Decoder.Floats  decoder.go: decodeFloat; decode_struct.go: decodeValueFloat; decode_any.go:
--                   decodeFloatValue, decodeBoolValue, decodeStringValue
--   Decoder.Arrays  decoder.go: the four decoders of typed arrays
--   Any             Go's own values behind `any`; decode_any.go: valueToAny (value_to_any);
--                   struct_decoder.go: convertValue
--   Decoder.Any     decode_any.go: DecodeAny (decode_any), decodeAnyValue and what it calls
--   Decoder.Typed   typed_decode.go: decodeAnyValue (typed_any) and what it calls
--   Encoder.Any     encode.go: Encode (encode_any) and Marshal on those values
--   Struct          struct_decoder.go: Scalars, Slices and Maps hold the readers, Decode the fields and
--                   the loops (decodeInto is decode_into); Tags is newStructDecoder, newStructEncoder
--                   and preEncodeString of struct_encoder.go, Encode its encodeInto and encodeField
--   Reflect         what works on Go types and values: Types is what package reflect shows of them, Keys
--                   assignment to a map, Info buildStructInfo and parseTag of decode_struct.go; Decode is
--                   DecodeStruct and decodeIntoValue (into_kind) there, Unmarshal is Unmarshal and
--                   decodeReflect of decode_any.go, Encode is Encode, encodeValue and Marshal of encode.go
--   Timestamp       timestamp.go
-- A Go name aB is a_b here. The other files below Any, Encoder, Decoder, Reflect, Struct and Value hold proofs
-- and what they speak of: Encoder.Wire writes the format down as a function of the value, independently of
-- the encoder; Decoder.Canonical is the form in which a value comes back (an Int that is not
-- negative as a Uint) and what lies within the limits; Decoder.Reads is a calculus of readers on an
-- input that begins with given bytes, and Decoder.Written applies it to an encoder's buffer;
-- Decoder.Contract is a calculus of what holds of a reader on every input, with Contract.Calm for
-- safety alone, Contract.After for a reader that may move back and Contract.Try for one that goes on
-- after an error; Reflect.Paths says where the indices of fields lead; Reflect.Contents computes the
-- Value of a Go value from the encoder's list of fields, and Reflect.Shows says what a Go value is as a
-- message by relations that follow the struct's declaration and use none of the encoder's functions on
-- fields, tags and empty values; Reflect.Restored has the Go values that come back; Decoder.Any.Follows is
-- a calculus of two readers that go the same way; Any.Represents relates Go values to Values.
--
-- Reflect.Types has Go's types as a data type, so a type that holds itself behind a pointer is left out,
-- as are maps whose keys are neither words nor strings, interfaces other than any, and fields that
-- cannot be set. Behind an interface stand only values as the decoders make them (Any), where Encode takes
-- any dynamic type. A method there takes what the target holds and returns what it then holds; what an
-- error leaves in it is left out.
--
-- A map[string]any is a list of entries, one for each key, in the order in which a loop comes to them.
-- A struct is a list of cells, one for each field of the decoder's table, in place of the memory that
-- the code writes through unsafe pointers; what an error leaves in the struct is left out, as are the
-- flag zeroCopy and the caches of decoders and encoders.
--
-- State is passed explicitly: a method takes the encoder or the decoder and returns it. A decoder's
-- method returns an Outcome: `ok` a result, `err` an error, each beside the state that it leaves,
-- `panic` for an index or a slice out of bounds, and `stuck` when the model's fuel runs out.
-- decodeValue and its like recurse on the nesting of the input; their fuel is the number of bytes left
-- and one, which is enough because each level takes a byte. The struct decoder recurses on the type.
--
-- Bytes are numbers, a byte below 256 being asked for where it matters. Words keep their width and
-- wrap (Base.Words). A float is its IEEE bit pattern, as math.Float64bits gives it (Base.Floats has
-- Go's conversions, a NaN being made quiet). Go's int is taken
-- to have 64 bits, so that a length read from the input is a number as it stands; a limit may be
-- negative. What make and append allocate is not modelled beyond the encoder's capacity and whether an
-- append has found it too small (the field spilled), nor that decoded strings share the input's memory.
--
-- Not modelled: what StructEncoder does for fields that are structs, slices or pointers of other elements,
-- which go to Encode, and arrays, interfaces and the like, for which it writes nil; a nil map within a
-- map of maps, which Encode writes as nil; an Ext whose data are nil; struct fields that are maps with
-- other keys than strings, or maps of maps of other values than strings, byte slices, int64 and any; what
-- Reflect.Types leaves out; the caches of struct tables; the pools of
-- encoders and decoders beyond what an empty one gives.
pub mod Base
pub mod Format
pub mod Errors
pub mod Config
pub mod Value
pub mod Any
pub mod Decoder
pub mod Encoder
pub mod Timestamp
pub mod Struct
pub mod Reflect
mod Tests
