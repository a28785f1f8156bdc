-- ===== src/Lib.antt =====
-- The Conflux SDK for Go: the client of a node (client.go), the account manager (account.go), the types
-- that they exchange (types/) and the helpers for keys and addresses (utils/).
--
-- A client turns each query into a call of the node over a requester and decodes the answer. To send a
-- transaction it fills the empty fields from the node and from the account manager, has the account
-- manager sign the RLP encoding of the transaction, and sends the signed bytes. The account manager
-- keeps a dictionary from general addresses to the accounts of a go-ethereum keystore.
--
-- Files:
--   Base      numbers, lists, bytes and texts, big integers (math/big) and Go maps with text keys;
--             Float is what the program uses of the floats of math/big
--   Errors    types/wrapped_error.go, types/errors.go: WrapError is wrap_error, Error is error_text,
--             Unwrap is unwrap
--   Result    the outcome of a Go call: a value, an error or a panic (a nil dereference, a failed type
--             assertion, an index out of range)
--   Exec      calls that change a state; Exec/Keeps and Exec/Gives are the rules for what holds after one,
--             Exec/Simulates those for one call that refines another
--   Ethereum  the functions of go-ethereum that the program calls, a parameter, and the laws on them
--   Hex       encoding/hex
--   Utils     utils/crypto.go: Keccak256 is keccak256_hex, ToCfxGeneralAddress is to_cfx_general_address;
--             Keys has PublicKeyToAddress and PrivateKeyToPublicKey; Risk has CalcBlockConfirmationRisk
--             of utils/utils.go
--   Types     types/: Address and Epoch; Transaction, with ApplyDefault; Request, the options and call
--             requests of option.go; Rlp, the encodings of transaction_unsigned.go and
--             transaction_signed.go; Response and Block, the structs that a node answers with
--   Account   account.go: a function for each method of AccountManager; Account/Keys is the keystore, a
--             parameter; Account/Ledger is an abstract manager, which the methods refine; Account/Operator is
--             the manager as a client uses it
--   Json      JSON values; Codec is how encoding/json reads and writes a Go type, an interface that Codec and
--             Numbers fill for strings, pointers, slices and numbers and Struct for a struct, by a table of its
--             struct tags; Transactions, Blocks, Logs and Requests have the tables of the structs of Types;
--             Float64 is what an interface{} makes of the numbers of JSON, and Narrow has the types whose
--             numbers it keeps; Decode is unmarshalRPCResult
--   Client    client.go: Requester is the interface rpcRequester, a parameter; Connect has the
--             constructors; Retry is rpcClientWithRetry; Queries and Blocks are the methods that ask the
--             node one thing; Batch are the methods that ask about many hashes in one call; Defaults is
--             ApplyUnsignedTransactionDefault, a function for each of its blocks, and Defaults/Fills has the
--             steps that it may take and Defaults/Reference what it comes to on a node that answers;
--             Send is SendTransaction and SignEncodedTransactionAndSend; Wire has the arguments of a
--             call as JSON
--   Contract  contract.go, with GetContract of client.go: Call is call_method, SendTransaction is
--             send_method, DecodeEvent is decode_event; Contract/Deploy is DeployContract of client.go, whose
--             goroutine is taken alone there, and in Contract/Deploy/Machine beside those who read its
--             result and receive from its channel; the package accounts/abi is the parameter Abi
--   Tests     instances of the parameters, and the theorems at concrete inputs
--
-- Floats. A float of math/big is a whole number over a power of two. SetInt is exact, Quo rounds to
-- nearest even at the greater precision of its operands; exponents have no bounds. An integer in JSON that goes through an interface{} is rounded to a
-- float64 and written again by the shortest digits for it; a number with a fraction or an exponent
-- stands for the text of its float64.
--
-- Conventions. A pointer is an Option, a *hexutil.Big or a *big.Int an Option ℤ without bounds, a
-- []byte or a string the list of its bytes; a nil slice and an empty one are the same. An error
-- message is its format string; what fmt.Sprintf puts into it is not kept. A call of the node
-- changes a world W, which may also hold the account manager. A transaction that is filled in
-- place is part of the state, so that an error leaves in it what was filled before.
--
-- Loops. The loops of rpcClientWithRetry run by recursion on the attempts that are left, so they end.
-- The goroutine of DeployContract goes along the list of what its channels deliver, and the other loops
-- go along lists of the program. No fuel is used but in Base/BigBytes, Base/Float and
-- Json/Decimals, where a number n has at most n bytes, bits or digits after the first, and in
-- Json/Float64, where a float64 has at most 1024 bits and 309 digits. A map that a batch query ranges
-- over gives its keys in an order that is a parameter.
--
-- Not modelled. rpc/ is a copy of go-ethereum's package and stands behind Requester, whose field for
-- batch calls gives an answer for each element before encoding/json reads it into the result; what
-- encoding/json leaves in a struct that it cannot read is a parameter. interface_mock.go is generated;
-- example/ holds demonstrations.
mod Base
pub mod Errors
pub mod Result
pub mod Ethereum
pub mod Exec
pub mod Hex
pub mod Utils
pub mod Account
pub mod Json
pub mod Types
pub mod Client
pub mod Contract
mod Tests
