-- ===== src/Lib.antt =====
-- Verification of the Perun backend for Nervos CKB (perun-ckb-backend).
--
-- The program opens, funds, disputes and settles payment channels on the CKB chain for go-perun. A
-- client asks for a transaction; the handler writes the outputs, witnesses and dependencies that the
-- step needs; the transaction builder adds inputs from its cell iterators and change cells until the
-- transaction is balanced; the encodings turn states, parameters, participants and signatures into the
-- molecule values that the contract reads.
--
-- Prelude       tests, lists, integers, results, Go maps and 64-bit words over the native numbers.
-- Ckb           what the source takes from ckb-sdk-go: values, and its functions as the record Sdk.
-- Perun         what the source takes from go-perun: states, parameters, and calls as GoPerun.
-- CellIterator  client/filtered_iterator.go and client/ckb_iterator.go.
-- Asset         channel/asset/asset.go.
-- Wallet        wallet/signature.go and wallet/address/address.go.
-- Encoding      encoding/channel_state.go, channel_parameters.go, signature.go, molecule/molecule.go.
-- Transaction   transaction/transaction.go in Funds (AssetInformation), Builder (script groups and
--               change cells), Balance (balanceTransaction) and Build (Build and the calls of the
--               SDK's handlers); transaction/handler.go and the information records of
--               transaction/ in Handler.
-- Deployment    backend/deployment.go, and the handler that a deployment configures.
-- Client        client/ckbclient.go and client/script_cache.go: Retry (retryRPC), Cache (the script cache),
--               Cells (the searches for live cells), Versions (checkVersion and updateState), Submit (the
--               builder of a request, and sendAndAwait), Channel (the requests of ledger channels),
--               VirtualChannel and VirtualClose (DisputeVC and ForceCloseWithVC), and History, a client
--               that serves requests one after the other.
-- CkbClient     the interface CKBClient, which Client.Interface fills with the client above.
-- Funder        channel/funder/funder.go, over that interface: Outcome for the first party, Verified for
--               the second.
-- Adjudicator   channel/adjudicator/adjudicator_sub.go, the polling subscription as a run over its polls;
--               Requests is channel/adjudicator/adjudicator.go.
-- Tests         a small world in which the theorems are applied.
--
-- State and operations. PerunTransactionBuilder is the record Builder; a method that changes it takes
-- the record and returns the new one, in a Result whose errors are TxError. A handler works on the list
-- of the calls that it made on collector.TransactionBuilder, whose answers are the record Collector. A
-- panic of the source is an error of the model. Functions keep the source's names: balanceTransaction
-- is balance_transaction, AddAssetsToOutputs is add_assets_to_outputs, and so on.
--
-- The client is a state machine over a World: the state of the node, the two script caches that all copies
-- of a client share, and the transactions that were handed to the node. Each call of the node is a
-- parameter that returns an answer and the next state, and between the calls other callers may set scripts
-- in the caches. A method of the client returns a result or an error with the world after it.
--
-- Integers. A uint64 is a native number below 2^64, and each sum or difference of the source wraps as
-- add64 and sub64 write out. A big.Int is an integer. A hash is the number that its bytes spell.
--
-- Maps and order. A Go map is an association list. Where the source ranges over a map and the order
-- matters, the order is a parameter: balance_transaction takes a function that reorders the entries.
--
-- Fuel. The loop of addInputsForFunding runs on the number of cells that the iterator still holds, and
-- one more for the call of HasNext that ends it; each round uses up a cell (CellIterator.Live). The
-- digits of a number run on the number itself. The lookup of a channel in the client has the fuel 2, which
-- is shown to be enough (Client.Cells.Total). The search for a channel token has as many rounds as the
-- iterator has cells. The wait for a transaction runs for await_fuel
-- rounds: the source waits for as long as the context lasts, and a wait that uses up the fuel ends with an
-- error of its own. The loop of the funder's second party has a fuel in the same way.
--
-- Not modelled: the node behind the RPC calls, key storage and signing, the handlers of ckb-sdk-go
-- that unlock cells, the encoding for Ethereum, and floating-point conversions. Molecule's byte
-- layout, script hashes, the molecule form of scripts, occupied capacities, the curve and the ASN.1
-- encoding are code of other repositories and enter as parameters.
mod Prelude
mod Tests
pub mod Ckb
pub mod CellIterator
pub mod Deployment
pub mod Client
pub mod CkbClient
pub mod Funder
pub mod Encoding
pub mod Asset
pub mod Perun
pub mod Wallet
pub mod Transaction
pub mod Adjudicator
